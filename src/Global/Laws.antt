-- ===== src/Global/Laws.antt =====
-- `Global::combine` as a whole: no extended key is lost, and a global map combined with itself is
-- itself.
use rust_psbt.Prelude.{
  ◌≡◌, ◌≢◌, ◌⊎◌, inl, inr, refl, ap, sym, ◌∙◌, none, some, [], ◌∷◌, All, ok, ◌>>=◌, >>=-eq-ok,
  bytes_eq_refl, ==_refl, arith, Option-cases,
}
use rust_psbt.Primitives.{KeySource}
use rust_psbt.Ordered.{nat_ord}
use rust_psbt.BTreeMap.{BTreeMap, get, insert, IsSorted, Above}
use rust_psbt.BTreeMap.Laws.{get-insert_self, get-insert_ne, get_head}
use rust_psbt.Keys.{key_ord, proprietary_ord}
use rust_psbt.Keys.Laws.{combine_map_self}
use rust_psbt.Global.{Global, Xpub, IsWellFormed}
use rust_psbt.Global.Combine.{
  Choice, keep_mine, take_theirs, choose, mine_covers, apply_choice, merge_xpub, merge_xpubs, merge,
  combine,
}
use rust_psbt.Global.Xpubs.{IsSuffix, IsSuffix-refl, IsSuffix-trans, choose-IsSuffix}
use native.Mathlib.Decide.{ℕ_discrete}

-- The map holds a source for the key whose path the given path ends.
pub record Covers (m : BTreeMap Xpub KeySource) (x : Xpub) (source : KeySource) : Type 0 where
  pub kept : KeySource
  pub held : get x m ≡ some kept
  pub suffix : IsSuffix source.1 kept.1

apply_choice-Covers :
    (x : Xpub) (theirs mine : KeySource) (m : BTreeMap Xpub KeySource) (c : Choice)
    → get x m ≡ some mine
    → choose x theirs mine ≡ ok c
    → Covers (apply_choice x theirs m c) x theirs × Covers (apply_choice x theirs m c) x mine
apply_choice-Covers x theirs mine m keep_mine g h =
    let (p, q) = choose-IsSuffix x theirs mine keep_mine h in
    (record { kept = mine; held = g; suffix = p }, record { kept = mine; held = g; suffix = q })
apply_choice-Covers x theirs mine m take_theirs g h =
    let (p, q) = choose-IsSuffix x theirs mine take_theirs h in
    let e = get-insert_self x theirs m in
    (record { kept = theirs; held = e; suffix = p }, record { kept = theirs; held = e; suffix = q })

apply_choice_ne :
    (x y : Xpub) (theirs : KeySource) (m : BTreeMap Xpub KeySource) (c : Choice)
    → y ≢ x
    → get y (apply_choice x theirs m c) ≡ get y m
apply_choice_ne x y theirs m keep_mine n = refl
apply_choice_ne x y theirs m take_theirs n = get-insert_ne y x theirs m n

merge_xpub_vacant :
    (x : Xpub) (s : KeySource) (m m' : BTreeMap Xpub KeySource)
    → get x m ≡ none
    → merge_xpub x s m ≡ ok m'
    → insert x s m ≡ m'
unfolding merge_xpub
merge_xpub_vacant x s m m' g h = ground arith

merge_xpub_occupied :
    (x : Xpub) (s mine : KeySource) (m m' : BTreeMap Xpub KeySource)
    → get x m ≡ some mine
    → merge_xpub x s m ≡ ok m'
    → (c : Choice) × (choose x s mine ≡ ok c) × (apply_choice x s m c ≡ m')
unfolding merge_xpub
merge_xpub_occupied x s mine m m' g h =
    let h' : (choose x s mine >>= λ c. ok (apply_choice x s m c)) ≡ ok m' = ground arith in
    let (c, e, f) = >>=-eq-ok (choose x s mine) (λ c. ok (apply_choice x s m c)) h' in
    (c, e, ground arith)

-- One round covers its own entry.
merge_xpub-Covers :
    (x : Xpub) (s : KeySource) (m m' : BTreeMap Xpub KeySource)
    → merge_xpub x s m ≡ ok m'
    → Covers m' x s
merge_xpub-Covers x s m m' h = elim (Option-cases (get x m)) [
  | inl g ↦
      rw (← merge_xpub_vacant x s m m' g h)
        (record { kept = s; held = get-insert_self x s m; suffix = IsSuffix-refl s.1 })
  | inr (mine, g) ↦
      let (c, e, f) = merge_xpub_occupied x s mine m m' g h in
      rw (← f) (apply_choice-Covers x s mine m c g e).0
]

-- One round keeps what the map covers at its own key.
Covers-same :
    (x : Xpub) (s t : KeySource) (m m' : BTreeMap Xpub KeySource)
    → merge_xpub x s m ≡ ok m'
    → Covers m x t
    → Covers m' x t
Covers-same x s t m m' h v =
    let (c, e, f) = merge_xpub_occupied x s v.kept m m' v.held h in
    let w = (apply_choice-Covers x s v.kept m c v.held e).1 in
    rw (← f) (record {
      kept = w.kept;
      held = w.held;
      suffix = IsSuffix-trans t.1 v.kept.1 w.kept.1 v.suffix w.suffix;
    })

-- One round keeps what the map covers.
merge_xpub-keeps :
    (x y : Xpub) (s t : KeySource) (m m' : BTreeMap Xpub KeySource)
    → merge_xpub x s m ≡ ok m'
    → Covers m y t
    → Covers m' y t
merge_xpub-keeps x y s t m m' h v = elim (ℕ_discrete y x) [
  | yes e ↦ rw e (Covers-same x s t m m' h (rw (← e) v))
  | no n ↦ record { kept = v.kept; held = unmoved n ∙ v.held; suffix = v.suffix }
]
  where
    unmoved : y ≢ x → get y m' ≡ get y m
    unmoved n = elim (Option-cases (get x m)) [
      | inl g ↦ rw (← merge_xpub_vacant x s m m' g h) (get-insert_ne y x s m n)
      | inr (mine, g) ↦
          let (c, e, f) = merge_xpub_occupied x s mine m m' g h in
          rw (← f) (apply_choice_ne x y s m c n)
    ]

merge_xpubs_step :
    (x : Xpub) (s : KeySource) (m rest r : BTreeMap Xpub KeySource)
    → merge_xpubs m ((x, s) ∷ rest) ≡ ok r
    → (m' : BTreeMap Xpub KeySource) × (merge_xpub x s m ≡ ok m') × (merge_xpubs m' rest ≡ ok r)
unfolding merge_xpubs
merge_xpubs_step x s m rest r h = >>=-eq-ok (merge_xpub x s m) (λ m'. merge_xpubs m' rest) h

merge_xpubs-keeps :
    (rest m r : BTreeMap Xpub KeySource) (y : Xpub) (t : KeySource)
    → merge_xpubs m rest ≡ ok r
    → Covers m y t
    → Covers r y t
merge_xpubs-keeps [] m r y t h v = let e : m ≡ r = unfold merge_xpubs in ground arith in rw (← e) v
merge_xpubs-keeps ((x, s) ∷ rest) m r y t h v =
    let (m', e, f) = merge_xpubs_step x s m rest r h in
    merge_xpubs-keeps rest m' r y t f (merge_xpub-keeps x y s t m m' e v)

get_cons :
    (k x : Xpub) (s t : KeySource) (m : BTreeMap Xpub KeySource)
    → get k ((x, s) ∷ m) ≡ some t
    → ((k ≡ x) × (s ≡ t)) ⊎ (get k m ≡ some t)
unfolding get
get_cons k x s t m h = ground arith

merge_xpubs-Covers :
    (rest m r : BTreeMap Xpub KeySource) (y : Xpub) (t : KeySource)
    → merge_xpubs m rest ≡ ok r
    → get y rest ≡ some t
    → Covers r y t
merge_xpubs-Covers [] m r y t h g = unfold get in cc
merge_xpubs-Covers ((x, s) ∷ rest) m r y t h g =
    let (m', e, f) = merge_xpubs_step x s m rest r h in
    elim (get_cons y x s t rest g) [
      | inl (p, q) ↦ rw (p, ← q) (merge_xpubs-keeps rest m' r x s f (merge_xpub-Covers x s m m' e))
      | inr g' ↦ merge_xpubs-Covers rest m' r y t f g'
    ]

combine_xpubs : (a b c : Global) (m : BTreeMap Xpub KeySource) → merge a b m ≡ c → c.xpubs ≡ m
unfolding merge
combine_xpubs a b c m e = ap (λ (g : Global). g.xpubs) (sym e)

-- The parts of a successful `combine`.
pub combine_parts :
    (a b c : Global)
    → combine a b ≡ ok c
    → (a.version ≡ b.version)
      × (a.tx_version ≡ b.tx_version)
      × ((m : BTreeMap Xpub KeySource) × (merge_xpubs a.xpubs b.xpubs ≡ ok m) × (merge a b m ≡ c))
unfolding combine
combine_parts a b c h =
    let p : a.version ≡ b.version = ground arith in
    let q : a.tx_version ≡ b.tx_version = ground arith in
    let h' : (merge_xpubs a.xpubs b.xpubs >>= λ m. ok (merge a b m)) ≡ ok c = ground arith in
    let (m, e, f) = >>=-eq-ok (merge_xpubs a.xpubs b.xpubs) (λ m. ok (merge a b m)) h' in
    (p, q, (m, e, ground arith))

-- A successful `combine` of global maps loses no extended key: each of either side is in the
-- result, with a derivation path that its own path ends.
pub combine-Covers :
    (a b c : Global) (x : Xpub) (s : KeySource)
    → combine a b ≡ ok c
    → (get x a.xpubs ≡ some s) ⊎ (get x b.xpubs ≡ some s)
    → Covers c.xpubs x s
combine-Covers a b c x s h (inl g) =
    let (p, q, (m, e, f)) = combine_parts a b c h in
    rw (combine_xpubs a b c m f) (
      merge_xpubs-keeps b.xpubs a.xpubs m x s e
        (record { kept = s; held = g; suffix = IsSuffix-refl s.1 }))
combine-Covers a b c x s h (inr g) =
    let (p, q, (m, e, f)) = combine_parts a b c h in
    rw (combine_xpubs a b c m f) (merge_xpubs-Covers b.xpubs a.xpubs m x s e g)

choose_self : (x : Xpub) (s : KeySource) → choose x s s ≡ ok keep_mine
unfolding choose mine_covers
choose_self x s = rw (bytes_eq_refl s.1, ==_refl s.0)

merge_xpub_held :
    (x : Xpub) (s : KeySource) (m : BTreeMap Xpub KeySource)
    → get x m ≡ some s
    → merge_xpub x s m ≡ ok m
unfolding merge_xpub
merge_xpub_held x s m g = ground (arith, choose_self x s)

merge_xpubs_held :
    (rest m : BTreeMap Xpub KeySource)
    → All (λ (e : Xpub × KeySource). get e.0 m ≡ some e.1) rest
    → merge_xpubs m rest ≡ ok m
unfolding merge_xpubs
merge_xpubs_held [] m h = refl
merge_xpubs_held ((x, s) ∷ rest) m h = rw (merge_xpub_held x s m h.0) (merge_xpubs_held rest m h.1)

holds-Above :
    (k : Xpub) (v : KeySource) (m rest : BTreeMap Xpub KeySource)
    → Above k rest
    → All (λ (e : Xpub × KeySource). get e.0 m ≡ some e.1) rest
    → All (λ (e : Xpub × KeySource). get e.0 ((k, v) ∷ m) ≡ some e.1) rest
unfolding get
holds-Above k v m [] a h = tt
holds-Above k v m ((x, s) ∷ rest) a h =
    (ground (arith, h.0, a.0, nat_ord.gt_of_lt k x), holds-Above k v m rest a.1 h.1)

holds_own :
    (m : BTreeMap Xpub KeySource)
    → IsSorted m
    → All (λ (e : Xpub × KeySource). get e.0 m ≡ some e.1) m
holds_own [] s = tt
holds_own ((k, v) ∷ m) s = (get_head k v m, holds-Above k v m m s.0 (holds_own m s.1))

-- A global map combined with itself is itself.
pub combine_self : (g : Global) → IsWellFormed g → combine g g ≡ ok g
unfolding combine merge
combine_self g w =
    rw
      (
        ==_refl g.version,
        ==_refl g.tx_version,
        merge_xpubs_held g.xpubs g.xpubs (holds_own g.xpubs w.xpubs),
      )
      (simp (
        combine_map_self g.sp_ecdh_shares w.sp_ecdh_shares,
        combine_map_self g.sp_dleq_proofs w.sp_dleq_proofs,
        combine_map_self g.proprietaries w.proprietaries,
        combine_map_self g.unknowns w.unknowns,
      ))
