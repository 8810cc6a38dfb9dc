-- ===== src/Condition/Restore.antt =====
-- What is read back of the conditions that were stored.
use mathlib.Core.List.{append_assoc, append-nil, reverse, reverse-cons}
use otchronos.Prelude.{
  ℕ, zero, suc, ◌+◌, ◌<◌, ◌≤◌, ◌≡◌, refl, sym, ap, ◌∙◌, some, Bool, true, false, not, ◌==◌,
  if◌then◌else◌, List, [], ◌∷◌, ◌++◌, length, arith, Bool-cases, ==-refl, inl, inr,
}
use otchronos.Condition.{
  attr_type, attr_id, attr_ticks, attr_is_buff, attr_sub_id, Extra, generic, attributes,
  regeneration, soul, damage, speed, outfit, light, Condition, new_condition, is_damage, attr_end,
}
use otchronos.Condition.Stream.{add_value, capacity, get_value-add_value, length-add_value}
use otchronos.Condition.Fields.{Attr, write_attrs, byte, base_attrs, own_attrs}
use otchronos.Condition.Store.{
  unserialize, expect, create_condition, load_conditions, is_persistent, save_conditions,
}
use otchronos.Condition.Reading.{unserialize-write_attrs}
use otchronos.Condition.Restored.{
  fresh_of, IsStored, restored, all_reads-own_attrs, reread-own_attrs,
}

expect-add_value :
    (t w v : ℕ) (s : List ℕ) → v < capacity w → expect t w (t ∷ add_value w v s) ≡ some (v, s)
unfolding expect
expect-add_value t w v s h = rw (==-refl t) (get_value-add_value w v s h)

is_damage-fresh_of : (e : Extra) → is_damage (fresh_of e) ≡ is_damage e
is_damage-fresh_of generic = refl
is_damage-fresh_of (attributes sk st n m) = refl
is_damage-fresh_of (regeneration ht hg mt mg) = refl
is_damage-fresh_of (soul gain ticks) = refl
is_damage-fresh_of (damage delayed period is) = refl
is_damage-fresh_of (speed delta mina minb maxa maxb) = refl
is_damage-fresh_of (outfit os) = refl
is_damage-fresh_of (light color level ticks change) = refl

byte_back : (b : Bool) → not (byte b == 0) ≡ b
byte_back true = refl
byte_back false = refl

byte-lt : (b : Bool) → byte b < 256
byte-lt true = omega arith
byte-lt false = omega arith

-- The head of a stored condition.
create_condition-write_attrs :
    (c : Condition) (s : List ℕ)
    → IsStored c
    → create_condition (write_attrs (base_attrs c.base) s)
      ≡ some (
        record {
          base = if is_damage c.extra then record c.base { ticks = 0 } else c.base;
          extra = fresh_of c.extra;
        },
        s,
      )
unfolding create_condition write_attrs new_condition
create_condition-write_attrs c s h =
    let b = c.base in
    let s₄ = attr_sub_id ∷ add_value 4 b.sub_id s in
    let s₃ = attr_is_buff ∷ add_value 1 (byte b.is_buff) s₄ in
    let s₂ = attr_ticks ∷ add_value 4 b.ticks s₃ in
    let s₁ = attr_id ∷ add_value 4 b.id s₂ in
    ground (
      arith,
      expect-add_value attr_type 4 b.condition_type s₁ (omega (arith, h.type_word)),
      expect-add_value attr_id 4 b.id s₂ (omega (arith, h.id_word)),
      expect-add_value attr_ticks 4 b.ticks s₃ (omega (arith, h.ticks_word)),
      expect-add_value attr_is_buff 1 (byte b.is_buff) s₄ (byte-lt b.is_buff),
      expect-add_value attr_sub_id 4 b.sub_id s (omega (arith, h.sub_id_word)),
      byte_back b.is_buff,
      h.class,
      is_damage-fresh_of c.extra,
    )

length-write_attrs :
    (later : List Attr) (rest : List ℕ)
    → length later + length rest ≤ length (write_attrs later rest)
unfolding write_attrs
length-write_attrs [] rest = omega arith
length-write_attrs (a ∷ later) rest = omega (
  arith,
  length-add_value a.width a.content (write_attrs later rest),
  length-write_attrs later rest,
)

-- One condition.
unserialize-own_attrs :
    (c : Condition) (rest : List ℕ)
    → IsStored c
    → let s = write_attrs (own_attrs c.extra) (attr_end ∷ rest) in
      unserialize
        (suc (length s))
        (record {
          base = if is_damage c.extra then record c.base { ticks = 0 } else c.base;
          extra = fresh_of c.extra;
        })
        s
      ≡ (some (restored c), rest)
unserialize-own_attrs c rest h =
    let s = write_attrs (own_attrs c.extra) (attr_end ∷ rest) in
    let d : Condition = record {
      base = if is_damage c.extra then record c.base { ticks = 0 } else c.base;
      extra = fresh_of c.extra;
    } in
    unserialize-write_attrs (own_attrs c.extra) (suc (length s)) d rest
      (omega (arith, length-write_attrs (own_attrs c.extra) (attr_end ∷ rest)))
      (all_reads-own_attrs c.extra h.sized)
    ∙ ap (λ e. (some e, rest)) (reread-own_attrs c.extra c.base h.sized)

-- The conditions that are stored, as they come back.
unfoldable pub kept : List Condition → List Condition
kept [] = []
kept (c ∷ cs) = if is_persistent c then restored c ∷ kept cs else kept cs

abbrev pub AllStored : List Condition → Type 0
AllStored [] = Unit {0}
AllStored (c ∷ cs) = IsStored c × AllStored cs

push-reverse :
    (c : Condition) (cs stored : List Condition)
    → reverse (c ∷ cs) ++ stored ≡ reverse cs ++ c ∷ stored
push-reverse c cs stored =
    ap (λ r. r ++ stored) (reverse-cons c cs) ∙ append_assoc (reverse cs) (c ∷ []) stored

load_none : (fuel : ℕ) (stored : List Condition) → load_conditions (suc fuel) [] stored ≡ stored
unfolding load_conditions create_condition expect
load_none fuel stored = refl

-- One condition more.
load-one :
    (c : Condition) (fuel : ℕ) (rest : List ℕ) (stored : List Condition)
    → IsStored c
    → load_conditions
        (suc fuel)
        (write_attrs (base_attrs c.base) (write_attrs (own_attrs c.extra) (attr_end ∷ rest)))
        stored
      ≡ load_conditions fuel rest (restored c ∷ stored)
unfolding load_conditions
load-one c fuel rest stored h = ground (
  arith,
  create_condition-write_attrs c (write_attrs (own_attrs c.extra) (attr_end ∷ rest)) h,
  unserialize-own_attrs c rest h,
)

load-save_onto :
    (cs : List Condition) (fuel : ℕ) (stored : List Condition)
    → length cs < fuel
    → AllStored cs
    → load_conditions fuel (save_conditions cs) stored ≡ reverse (kept cs) ++ stored
unfolding save_conditions kept
load-save_onto [] zero stored h a = absurd (omega arith)
load-save_onto [] (suc fuel) stored h a = load_none fuel stored
load-save_onto (c ∷ cs) zero stored h a = absurd (omega arith)
load-save_onto (c ∷ cs) (suc fuel) stored h a = elim (Bool-cases (is_persistent c)) [
  | inr n ↦ rw n (load-save_onto cs (suc fuel) stored (omega (arith, h)) a.1)
  | inl p ↦ rw p (
      load-one c fuel (save_conditions cs) stored a.0
      ∙ load-save_onto cs fuel (restored c ∷ stored) (omega (arith, h)) a.1
      ∙ sym (push-reverse (restored c) (kept cs) stored))
]

-- `savePlayer` and `loadPlayer`, for conditions whose class is that of their type and whose fields have the
-- sizes of their types: the conditions that persist come back, in the opposite order, each with its type,
-- id, buff and sub id and all that its class has stored; so do its ticks, but for a ConditionDamage, whose
-- ticks are then the sum of its intervals.
pub load_conditions-save_conditions :
    (cs : List Condition) (fuel : ℕ)
    → length cs < fuel
    → AllStored cs
    → load_conditions fuel (save_conditions cs) [] ≡ reverse (kept cs)
load_conditions-save_conditions cs fuel h a =
    load-save_onto cs fuel [] h a ∙ append-nil (reverse (kept cs))
