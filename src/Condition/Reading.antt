-- ===== src/Condition/Reading.antt =====
-- How the attributes of a class are read back, one after another.
use otchronos.Prelude.{
  ℕ, zero, suc, ◌<◌, ◌≡◌, refl, ap, ap₂, ◌∙◌, Option, none, some, Bool, true, false, not, ◌==◌,
  ◌&&◌, ltb, List, [], ◌∷◌, length, arith, Option-cases, inl, inr,
}
use otchronos.Condition.{
  Base, Extra, generic, attributes, regeneration, soul, damage, speed, outfit, light, Condition,
  attr_end,
}
use otchronos.Condition.Stream.{add_value, capacity, get_value-add_value}
use otchronos.Condition.Fields.{Attr, write_attrs, own_width, set_own}
use otchronos.Condition.Store.{unserialize_prop, unserialize}

-- The condition after its class has read attributes.
unfoldable pub reread : List Attr → Condition → Condition
reread [] c = c
reread (a ∷ later) c = reread later (set_own a.tag a.content c.base c.extra)

-- The class reads an attribute itself, and its value fits.
unfoldable pub reads_by : Option ℕ → Attr → Bool
reads_by none a = false
reads_by (some w) a = (w == a.width && ltb a.content (capacity a.width)) && not (a.tag == attr_end)

unfoldable pub own_reads : Extra → Attr → Bool
unfolding reads_by
own_reads e a = reads_by (own_width e a.tag) a

unfoldable pub all_reads : Extra → List Attr → Bool
all_reads e [] = true
all_reads e (a ∷ later) = own_reads e a && all_reads e later

-- A class stays what it is.
own_width-set_own :
    (t v : ℕ) (b : Base) (e : Extra) (u : ℕ) → own_width (set_own t v b e).extra u ≡ own_width e u
unfolding own_width set_own
own_width-set_own t v b generic u = refl
own_width-set_own t v b (attributes sk st n m) u = ground arith
own_width-set_own t v b (regeneration ht hg mt mg) u = ground arith
own_width-set_own t v b (soul gain ticks) u = ground arith
own_width-set_own t v b (damage delayed period is) u = ground arith
own_width-set_own t v b (speed delta mina minb maxa maxb) u = ground arith
own_width-set_own t v b (outfit os) u = refl
own_width-set_own t v b (light color level ticks change) u = ground arith

all_reads-set_own :
    (t v : ℕ) (b : Base) (e : Extra) (later : List Attr)
    → all_reads (set_own t v b e).extra later ≡ all_reads e later
unfolding all_reads own_reads
all_reads-set_own t v b e [] = refl
all_reads-set_own t v b e (a ∷ later) =
    ap₂ (λ p q. p && q) (ap (λ w. reads_by w a) (own_width-set_own t v b e a.tag))
      (all_reads-set_own t v b e later)

-- One attribute.
unserialize-attr :
    (fuel : ℕ) (c : Condition) (a : Attr) (rest : List ℕ)
    → own_reads c.extra a ≡ true
    → unserialize (suc fuel) c (a.tag ∷ add_value a.width a.content rest)
      ≡ unserialize fuel (set_own a.tag a.content c.base c.extra) rest
unfolding unserialize unserialize_prop own_reads
unserialize-attr fuel c a rest h = elim (Option-cases (own_width c.extra a.tag)) [
  | inl q ↦ absurd (ground (arith, q, h))
  | inr (w, q) ↦
      let same_width : w ≡ a.width = ground (arith, q, h) in
      let fit : a.content < capacity a.width = ground (arith, q, h) in
      ground (arith, q, h, same_width, get_value-add_value a.width a.content rest fit)
]

-- All attributes, up to the end.
pub unserialize-write_attrs :
    (later : List Attr) (fuel : ℕ) (c : Condition) (rest : List ℕ)
    → length later < fuel
    → all_reads c.extra later ≡ true
    → unserialize fuel c (write_attrs later (attr_end ∷ rest)) ≡ (some (reread later c), rest)
unfolding write_attrs reread all_reads
unserialize-write_attrs [] zero c rest h r = absurd (omega arith)
unserialize-write_attrs [] (suc fuel) c rest h r = unfold unserialize in refl
unserialize-write_attrs (a ∷ later) zero c rest h r = absurd (omega arith)
unserialize-write_attrs (a ∷ later) (suc fuel) c rest h r =
    let c' = set_own a.tag a.content c.base c.extra in
    unserialize-attr fuel c a (write_attrs later (attr_end ∷ rest)) (ground (arith, r))
    ∙ unserialize-write_attrs later fuel c' rest (omega (arith, h))
        (all_reads-set_own a.tag a.content c.base c.extra later ∙ ground (arith, r))
