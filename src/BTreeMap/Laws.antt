-- ===== src/BTreeMap/Laws.antt =====
-- Lookups after `insert` and `extend`, the order of the entries, and extensionality.
use rust_psbt.Prelude.{
  ◌≡◌, ◌≢◌, refl, sym, ap, ◌∙◌, none, some, [], ◌∷◌, or_else, or_else_self, or_else_assoc, arith,
}
use rust_psbt.Ordered.{Ord}
use rust_psbt.BTreeMap.{BTreeMap, get, insert, extend, Above, IsSorted}
use Prim.Native.Nat.Ordering.{lt}

module _ {ℓ κ} {K : Type ℓ} {V : Type κ} ⦃o : Ord K⦄ where
  pub get-insert_self : (q : K) (w : V) (m : BTreeMap K V) → get q (insert q w m) ≡ some w
  unfolding get insert
  get-insert_self q w [] = ground (arith, o.cmp_refl q)
  get-insert_self q w ((k, v) ∷ m) = ground (arith, o.cmp_refl q, get-insert_self q w m)

  pub get-insert_ne : (p q : K) (w : V) (m : BTreeMap K V) → p ≢ q → get p (insert q w m) ≡ get p m
  unfolding get insert
  get-insert_ne p q w [] n = ground (arith, o.eq_of_cmp p q)
  get-insert_ne p q w ((k, v) ∷ m) n =
      ground (arith, o.eq_of_cmp p q, o.eq_of_cmp q k, o.lt_trans p q k, get-insert_ne p q w m)

  pub get-Above : (q : K) (m : BTreeMap K V) → Above q m → get q m ≡ none
  unfolding get
  get-Above q [] h = refl
  get-Above q ((k, v) ∷ m) h = ground (arith, h.0)

  pub Above-trans : (p q : K) (m : BTreeMap K V) → o.cmp p q ≡ lt → Above q m → Above p m
  Above-trans p q [] h a = tt
  Above-trans p q ((k, v) ∷ m) h a = (o.lt_trans p q k h a.0, Above-trans p q m h a.1)

  pub Above-insert :
      (b q : K) (w : V) (m : BTreeMap K V) → o.cmp b q ≡ lt → Above b m → Above b (insert q w m)
  unfolding insert
  Above-insert b q w [] h a = (h, tt)
  Above-insert b q w ((k, v) ∷ m) h a = ground (arith, Above-insert b q w m h)

  pub insert-IsSorted : (q : K) (w : V) (m : BTreeMap K V) → IsSorted m → IsSorted (insert q w m)
  unfolding insert
  insert-IsSorted q w [] s = (tt, tt)
  insert-IsSorted q w ((k, v) ∷ m) s = ground (
    arith,
    Above-trans q k m,
    o.eq_of_cmp q k,
    o.lt_of_gt q k,
    Above-insert k q w m,
    insert-IsSorted q w m s.1,
  )

  pub extend-IsSorted : (m n : BTreeMap K V) → IsSorted m → IsSorted (extend m n)
  unfolding extend
  extend-IsSorted m [] s = s
  extend-IsSorted m ((k, v) ∷ n) s = extend-IsSorted (insert k v m) n (insert-IsSorted k v m s)

  -- After `extend` a key has the value of the second map if that map has the key.
  pub get-extend :
      (q : K) (m n : BTreeMap K V) → IsSorted n → get q (extend m n) ≡ or_else (get q n) (get q m)
  unfolding extend get
  get-extend q m [] s = refl
  get-extend q m ((k, v) ∷ n) s = ground (
    arith,
    get-extend q (insert k v m) n s.1,
    get-insert_self k v m,
    get-insert_ne q k v m,
    o.eq_of_cmp q k,
    o.cmp_refl q,
    get-Above q n,
    Above-trans q k n,
    s.0,
  )

  pub get_head : (k : K) (v : V) (m : BTreeMap K V) → get k ((k, v) ∷ m) ≡ some v
  unfolding get
  get_head k v m = ground (arith, o.cmp_refl k)

  get_tail :
      (q k : K) (v w : V) (m n : BTreeMap K V)
      → Above k m
      → Above k n
      → get q ((k, v) ∷ m) ≡ get q ((k, w) ∷ n)
      → get q m ≡ get q n
  unfolding get
  get_tail q k v w m n a b e =
      ground
        (arith, o.eq_of_cmp q k, get-Above q m, get-Above q n, Above-trans q k m, Above-trans q k n)

  heads_agree :
      (j k : K) (v w : V) (m n : BTreeMap K V)
      → get j ((j, v) ∷ m) ≡ get j ((k, w) ∷ n)
      → get k ((j, v) ∷ m) ≡ get k ((k, w) ∷ n)
      → (j ≡ k) × (v ≡ w)
  unfolding get
  heads_agree j k v w m n d e =
      ground (arith, o.cmp_refl j, o.cmp_refl k, o.eq_of_cmp j k, o.lt_of_gt j k)

  -- Two maps that read alike are one map.
  pub get_ext :
      (m n : BTreeMap K V) → IsSorted m → IsSorted n → ((q : K) → get q m ≡ get q n) → m ≡ n
  get_ext [] [] s t h = refl
  get_ext [] ((k, w) ∷ n) s t h = unfold get in cc (h k, get_head k w n)
  get_ext ((j, v) ∷ m) [] s t h = unfold get in cc (h j, get_head j v m)
  get_ext ((j, v) ∷ m) ((k, w) ∷ n) s t h =
      let (ek, ev) = heads_agree j k v w m n (h j) (h k) in
      cc (
        ek,
        ev,
        get_ext m n s.1 t.1 (λ q.
            get_tail q j v w m n s.0 (rw ek t.0) (h q ∙ ap (λ x. get q ((x, w) ∷ n)) (sym ek))),
      )

  -- Extending a map by itself changes nothing.
  pub extend_self : (m : BTreeMap K V) → IsSorted m → extend m m ≡ m
  extend_self m s =
      get_ext (extend m m) m (extend-IsSorted m m s) s
        (λ q. rw (get-extend q m m s) (or_else_self (get q m)))

  -- Extension is associative.
  pub extend_assoc :
      (a b c : BTreeMap K V)
      → IsSorted a
      → IsSorted b
      → IsSorted c
      → extend (extend a b) c ≡ extend a (extend b c)
  extend_assoc a b c sa sb sc =
      get_ext _ _ (extend-IsSorted _ c (extend-IsSorted a b sa)) (extend-IsSorted a _ sa) (λ q.
        simp (
          get-extend q (extend a b) c sc,
          get-extend q a b sb,
          get-extend q a (extend b c) (extend-IsSorted b c sb),
          get-extend q b c sc,
          or_else_assoc,
        ))
