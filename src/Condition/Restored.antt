-- ===== src/Condition/Restored.antt =====
-- What comes back of a condition once its class has read its own attributes.
use mathlib.Core.List.{append_assoc, append-nil}
use otchronos.Prelude.{
  ℕ, ◌+◌, ◌^◌, ◌%◌, ◌<◌, ◌≡◌, refl, ap, ◌∙◌, some, Bool, true, false, ◌==◌, ◌&&◌, if◌then◌else◌,
  ltb, List, [], ◌∷◌, ◌++◌, arith,
}
use otchronos.Condition.{
  Base, IntervalInfo, Extra, generic, attributes, regeneration, soul, damage, speed, outfit, light,
  Condition, fresh, is_damage, no_skills, no_stats, minus_one, attr_interval_data,
}
use otchronos.Condition.Fields.{
  pack, unpack, interval_attrs, outfit_attrs, own_attrs, own_width, set_own,
}
use otchronos.Condition.Reading.{reread, own_reads, all_reads}

-- A value of 32 bits.
abbrev pub is_word : ℕ → Bool
is_word v = ltb v (2 ^ 32)

unfoldable pub are_intervals : List IntervalInfo → Bool
are_intervals [] = true
are_intervals (i ∷ is) =
    ((is_word i.time_left && is_word i.value) && is_word i.interval) && are_intervals is

unfoldable pub are_outfits : List ℕ → Bool
are_outfits [] = true
are_outfits (o ∷ os) = ltb o (2 ^ 96) && are_outfits os

-- The fields of a class have the sizes of their types.
unfoldable pub is_sized : Extra → Bool
unfolding are_intervals are_outfits
is_sized generic = true
is_sized (attributes sk st n m) =
    (((is_word sk.fist && is_word sk.club) && (is_word sk.sword && is_word sk.axe))
      && ((is_word sk.missile && is_word sk.shield) && is_word sk.fishing))
    && ((is_word st.max_hit_points && is_word st.max_mana_points)
        && (is_word st.soul_points && is_word st.magic_points))
is_sized (regeneration ht hg mt mg) = (is_word ht && is_word hg) && (is_word mt && is_word mg)
is_sized (soul gain ticks) = is_word gain && is_word ticks
is_sized (damage delayed period is) = is_word period && are_intervals is
is_sized (speed delta mina minb maxa maxb) =
    (is_word delta && is_word mina) && (is_word minb && (is_word maxa && is_word maxb))
is_sized (outfit os) = are_outfits os
is_sized (light color level ticks change) =
    (is_word color && is_word level) && (is_word ticks && is_word change)

-- What a new condition of the class has of its own.
abbrev pub fresh_of : Extra → Extra
fresh_of generic = generic
fresh_of (attributes sk st n m) = attributes no_skills no_stats 0 0
fresh_of (regeneration ht hg mt mg) = regeneration 1000 0 1000 0
fresh_of (soul gain ticks) = soul 0 0
fresh_of (damage delayed period is) = damage false 0 []
fresh_of (speed delta mina minb maxa maxb) = speed 0 0 0 0 0
fresh_of (outfit os) = outfit []
fresh_of (light color level ticks change) = light 0 0 0 0

-- A condition whose class is that of its type, and whose fields have the sizes of their types.
pub record IsStored (c : Condition) : Type 0 where
  pub class : fresh c.base.condition_type ≡ some (fresh_of c.extra)
  pub sized : is_sized c.extra ≡ true
  pub type_word : c.base.condition_type < 2 ^ 32
  pub id_word : c.base.id < 2 ^ 32
  pub ticks_word : c.base.ticks < 2 ^ 32
  pub sub_id_word : c.base.sub_id < 2 ^ 32

-- The ticks of a ConditionDamage, counted again from its intervals.
unfoldable pub ticks_from : ℕ → List IntervalInfo → ℕ
ticks_from t [] = t
ticks_from t (i ∷ is) = ticks_from (if t == minus_one then t else (t + i.interval) % 2 ^ 32) is

abbrev pub restored_extra : Extra → Extra
restored_extra (attributes sk st n m) = attributes sk st 7 4
restored_extra e = e

abbrev pub restored_ticks : ℕ → Extra → ℕ
restored_ticks t (damage delayed period is) = ticks_from 0 is
restored_ticks t _ = t

-- What comes back of a condition: all that was stored of it, but for the ticks of a ConditionDamage, which are
-- the sum of its intervals, and the counters of the attributes that have been read.
abbrev pub restored : Condition → Condition
restored c = record {
  base = record c.base { ticks = restored_ticks c.base.ticks c.extra };
  extra = restored_extra c.extra;
}

unpack-pack : (i : IntervalInfo) → i.time_left < 2 ^ 32 → i.value < 2 ^ 32 → unpack (pack i) ≡ i
unpack-pack i h k = ground (arith, h, k)

all_reads-intervals :
    (is : List IntervalInfo) (d : Bool) (p : ℕ) (l : List IntervalInfo)
    → are_intervals is ≡ true
    → all_reads (damage d p l) (interval_attrs is) ≡ true
unfolding all_reads own_reads own_width interval_attrs are_intervals
all_reads-intervals [] d p l h = refl
all_reads-intervals (i ∷ is) d p l h =
    ground (arith, h, all_reads-intervals is d p l (ground (arith, h)))

all_reads-outfits :
    (os l : List ℕ) → are_outfits os ≡ true → all_reads (outfit l) (outfit_attrs os) ≡ true
unfolding all_reads own_reads own_width outfit_attrs are_outfits
all_reads-outfits [] l h = refl
all_reads-outfits (o ∷ os) l h = ground (arith, h, all_reads-outfits os l (ground (arith, h)))

pub all_reads-own_attrs :
    (e : Extra) → is_sized e ≡ true → all_reads (fresh_of e) (own_attrs e) ≡ true
unfolding all_reads own_reads own_width own_attrs is_sized
all_reads-own_attrs generic h = refl
all_reads-own_attrs (attributes sk st n m) h = ground (arith, h)
all_reads-own_attrs (regeneration ht hg mt mg) h = ground (arith, h)
all_reads-own_attrs (soul gain ticks) h = ground (arith, h)
all_reads-own_attrs (damage delayed period is) h =
    ground (arith, h, all_reads-intervals is false 0 [])
all_reads-own_attrs (speed delta mina minb maxa maxb) h = ground (arith, h)
all_reads-own_attrs (outfit os) h = all_reads-outfits os [] h
all_reads-own_attrs (light color level ticks change) h = ground (arith, h)

set_own-interval :
    (i : IntervalInfo) (l : List IntervalInfo) (b : Base) (d : Bool) (p : ℕ)
    → unpack (pack i) ≡ i
    → set_own attr_interval_data (pack i) b (damage d p l) ≡ record {
      base = record b {
        ticks = if b.ticks == minus_one then b.ticks else (b.ticks + i.interval) % 2 ^ 32;
      };
      extra = damage d p (l ++ i ∷ []);
    }
unfolding set_own
set_own-interval i l b d p e = ground (arith, e)

reread-intervals :
    (is l : List IntervalInfo) (b : Base) (d : Bool) (p : ℕ)
    → are_intervals is ≡ true
    → reread (interval_attrs is) (record { base = b; extra = damage d p l })
      ≡ record { base = record b { ticks = ticks_from b.ticks is }; extra = damage d p (l ++ is) }
unfolding reread interval_attrs set_own ticks_from are_intervals
reread-intervals [] l b d p h = rw (append-nil l) refl
reread-intervals (i ∷ is) l b d p h =
    let t = if b.ticks == minus_one then b.ticks else (b.ticks + i.interval) % 2 ^ 32 in
    let same = unpack-pack i (ground (arith, h)) (ground (arith, h)) in
    ap (reread (interval_attrs is)) (set_own-interval i l b d p same)
    ∙ reread-intervals is (l ++ i ∷ []) (record b { ticks = t }) d p (ground (arith, h))
    ∙ ap (λ r. record { base = record b { ticks = ticks_from t is }; extra = damage d p r })
        (append_assoc l (i ∷ []) is)

reread-outfits :
    (os l : List ℕ) (b : Base)
    → reread (outfit_attrs os) (record { base = b; extra = outfit l })
      ≡ record { base = b; extra = outfit (l ++ os) }
unfolding reread outfit_attrs set_own
reread-outfits [] l b = rw (append-nil l) refl
reread-outfits (o ∷ os) l b =
    reread-outfits os (l ++ o ∷ []) b
    ∙ ap (λ r. record { base = b; extra = outfit r }) (append_assoc l (o ∷ []) os)

-- What the class reads of its own attributes.
pub reread-own_attrs :
    (e : Extra) (b : Base)
    → is_sized e ≡ true
    → reread
        (own_attrs e)
        (record { base = if is_damage e then record b { ticks = 0 } else b; extra = fresh_of e })
      ≡ record { base = record b { ticks = restored_ticks b.ticks e }; extra = restored_extra e }
unfolding reread own_attrs set_own is_sized
reread-own_attrs generic b h = refl
reread-own_attrs (attributes sk st n m) b h = refl
reread-own_attrs (regeneration ht hg mt mg) b h = refl
reread-own_attrs (soul gain ticks) b h = refl
reread-own_attrs (damage true period is) b h =
    reread-intervals is [] (record b { ticks = 0 }) true period (ground (arith, h))
reread-own_attrs (damage false period is) b h =
    reread-intervals is [] (record b { ticks = 0 }) false period (ground (arith, h))
reread-own_attrs (speed delta mina minb maxa maxb) b h = refl
reread-own_attrs (outfit os) b h = reread-outfits os [] b
reread-own_attrs (light color level ticks change) b h = refl
