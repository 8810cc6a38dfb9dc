-- ===== src/Condition/Store.antt =====
-- How the conditions of a player are stored and read again: `serialize`, `unserialize` and `unserializeProp`
-- of condition.cpp, and the loops over them of iologindata.cpp.
use otchronos.Prelude.{
  ℕ, zero, suc, Option, none, some, Bool, not, ◌==◌, ◌||◌, ◌&&◌, if◌then◌else◌, List, [], ◌∷◌,
  length,
}
use otchronos.Condition.{
  Base, Condition, attr_type, attr_id, attr_ticks, attr_is_buff, attr_sub_id, attr_end, minus_one,
  new_condition,
}
use otchronos.Condition.Stream.{get_value}
use otchronos.Condition.Fields.{write_attrs, base_attrs, own_attrs, own_width, set_own}

-- `Condition::unserializeProp`: the attributes of the base class, their widths and what becomes of them.
unfoldable pub base_width : ℕ → Option ℕ
base_width t =
    if (t == attr_type || t == attr_id) || (t == attr_ticks || t == attr_sub_id)
    then some 4
    else if t == attr_is_buff
    then some 1
    else if t == attr_end
    then some 0
    else none

unfoldable pub set_base : ℕ → ℕ → Base → Base
set_base t v b =
    if t == attr_type
    then record b { condition_type = v }
    else if t == attr_id
    then record b { id = v }
    else if t == attr_ticks
    then record b { ticks = v }
    else if t == attr_is_buff
    then record b { is_buff = not (v == 0) }
    else if t == attr_sub_id
    then record b { sub_id = v }
    else b

-- `unserializeProp` of a condition, by its class: the condition and the rest of the stream, or none.
unfoldable pub unserialize_prop : Condition → ℕ → List ℕ → Option (Condition × List ℕ)
unfolding own_width base_width set_own set_base
unserialize_prop c t s = elim (own_width c.extra t) [
  | some w ↦ elim (get_value w s) [
    | none ↦ none
    | some (v, rest) ↦ some (set_own t v c.base c.extra, rest)
  ]
  | none ↦ elim (base_width t) [
    | none ↦ none
    | some w ↦ elim (get_value w s) [
      | none ↦ none
      | some (v, rest) ↦ some (record c { base = set_base t v c.base }, rest)
    ]
  ]
]

-- `Condition::unserialize`, with fuel for the attributes: the condition if it could be read, and the rest of
-- the stream.
unfoldable pub unserialize : ℕ → Condition → List ℕ → Option Condition × List ℕ
unfolding unserialize_prop
unserialize zero c s = (none, s)
unserialize (suc fuel) c [] = (some c, [])
unserialize (suc fuel) c (t ∷ s) =
    if t == attr_end then (some c, s) else elim (unserialize_prop c t s) [
      | none ↦ (none, s)
      | some (c', rest) ↦ unserialize fuel c' rest
    ]

-- An attribute that has to come next, and its value.
unfoldable pub expect : ℕ → ℕ → List ℕ → Option (ℕ × List ℕ)
expect t w [] = none
expect t w (a ∷ s) = if a == t then get_value w s else none

-- `Condition::createCondition` from a stream.
unfoldable pub create_condition : List ℕ → Option (Condition × List ℕ)
create_condition s = elim (expect attr_type 4 s) [
  | none ↦ none
  | some (type, s₁) ↦ elim (expect attr_id 4 s₁) [
    | none ↦ none
    | some (id, s₂) ↦ elim (expect attr_ticks 4 s₂) [
      | none ↦ none
      | some (ticks, s₃) ↦ elim (expect attr_is_buff 1 s₃) [
        | none ↦ none
        | some (buff, s₄) ↦ elim (expect attr_sub_id 4 s₄) [
          | none ↦ none
          | some (sub, s₅) ↦
              elim (new_condition record {
                condition_type = type;
                id = id;
                ticks = ticks;
                is_buff = not (buff == 0);
                sub_id = sub;
              }) [ none ↦ none | some c ↦ some (c, s₅) ]
        ]
      ]
    ]
  ]
]

abbrev pub push_condition : Option Condition → List Condition → List Condition
push_condition none cs = cs
push_condition (some c) cs = c ∷ cs

-- The loop of `IOLoginData::loadPlayer` over the conditions, with fuel for their number. What cannot be read
-- is left out.
unfoldable pub load_conditions : ℕ → List ℕ → List Condition → List Condition
load_conditions zero s stored = stored
load_conditions (suc fuel) s stored = elim (create_condition s) [
  | none ↦ stored
  | some (c, rest) ↦
      let (read, later) = unserialize (suc (length rest)) c rest in
      load_conditions fuel later (push_condition read stored)
]

-- `Condition::isPersistent`: not without an end, and of the default id, -1, or that of combat, 0.
abbrev pub is_persistent : Condition → Bool
is_persistent c = not (c.base.ticks == minus_one) && (c.base.id == minus_one || c.base.id == 0)

-- The loop of `IOLoginData::savePlayer` over the conditions.
unfoldable pub save_conditions : List Condition → List ℕ
save_conditions [] = []
save_conditions (c ∷ cs) =
    let rest = save_conditions cs in
    if is_persistent c
    then write_attrs (base_attrs c.base) (write_attrs (own_attrs c.extra) (attr_end ∷ rest))
    else rest
