-- ===== src/Aop/Order.antt =====
-- core/spakky/src/spakky/core/aop/post_processor.py: the aspects on a method nest by their order.
use mathlib.Core.List
use spakky_framework.Common.{
  ℕ, ◌≤◌, ◌≡◌, refl, Bool, inl, inr, List, [], ◌∷◌, ◌++◌, ltb, keep, All, Bool-cases, keep-Perm,
  middle-Perm, Permᴰ, arith, append-nil,
}
use spakky_framework.Aop.Advisor.{Func, advise}
use spakky_framework.Aop.Weaving.{Aspect, insert, sort, wrap, call}

module _ {X W A : Type 0} where
  -- The first aspect is the outermost.
  abbrev pub nest : List (Aspect X W A) → Func X W A → Func X W A
  nest [] method = method
  nest (a ∷ as') method = advise a.instance_ (nest as' method)

  abbrev pub Ascending : List (Aspect X W A) → Type 0
  Ascending [] = Unit
  Ascending (a ∷ as') = All (λ b. a.order ≤ b.order) as' × Ascending as'

  abbrev Descending : List (Aspect X W A) → Type 0
  Descending [] = Unit
  Descending (a ∷ as') = All (λ b. b.order ≤ a.order) as' × Descending as'

  All-le :
      (m n : ℕ) (bs : List (Aspect X W A))
      → m ≤ n
      → All (λ b. b.order ≤ m) bs
      → All (λ b. b.order ≤ n) bs
  All-le m n [] h _ = tt
  All-le m n (b ∷ bs) h (p, ps) = (omega arith, All-le m n bs h ps)

  All-insert :
      (n : ℕ) (a : Aspect X W A) (bs : List (Aspect X W A))
      → a.order ≤ n
      → All (λ b. b.order ≤ n) bs
      → All (λ b. b.order ≤ n) (insert a bs)
  unfolding insert
  All-insert n a [] h _ = (h, tt)
  All-insert n a (b ∷ bs) h (p, ps) = elim (Bool-cases (ltb a.order b.order)) [
    | inl less ↦ rw less (p, All-insert n a bs h ps)
    | inr more ↦ rw more (h, (p, ps))
  ]

  insert-Descending :
      (a : Aspect X W A) (bs : List (Aspect X W A)) → Descending bs → Descending (insert a bs)
  unfolding insert
  insert-Descending a [] _ = (tt, tt)
  insert-Descending a (b ∷ bs) (p, ps) = elim (Bool-cases (ltb a.order b.order)) [
    | inl less ↦ rw less (All-insert b.order a bs (ground arith) p, insert-Descending a bs ps)
    | inr more ↦
        let above : b.order ≤ a.order = ground arith in
        rw more ((above, All-le b.order a.order bs above p), (p, ps))
  ]

  insert-Perm : (a : Aspect X W A) (bs : List (Aspect X W A)) → Permᴰ (a ∷ bs) (insert a bs)
  unfolding insert
  insert-Perm a [] = List.Permᴰ.refl (a ∷ [])
  insert-Perm a (b ∷ bs) = elim (Bool-cases (ltb a.order b.order)) [
    | inl less ↦ rw less (Permᴰ.trans (Permᴰ.swap refl refl) (Permᴰ.cons refl (insert-Perm a bs)))
    | inr more ↦ rw more (List.Permᴰ.refl (a ∷ b ∷ bs))
  ]

  sort-Descending : (as' : List (Aspect X W A)) → Descending (sort as')
  unfolding sort
  sort-Descending [] = tt
  sort-Descending (a ∷ as') = insert-Descending a (sort as') (sort-Descending as')

  sort-Perm : (as' : List (Aspect X W A)) → Permᴰ as' (sort as')
  unfolding sort
  sort-Perm [] = Permᴰ.nil
  sort-Perm (a ∷ as') = Permᴰ.trans (Permᴰ.cons refl (sort-Perm as')) (insert-Perm a (sort as'))

  All-keep :
      (test : Aspect X W A → Bool) (n : ℕ) (bs : List (Aspect X W A))
      → All (λ b. b.order ≤ n) bs
      → All (λ b. b.order ≤ n) (keep test bs)
  unfolding keep
  All-keep test n [] _ = tt
  All-keep test n (b ∷ bs) (p, ps) = elim (Bool-cases (test b)) [
    | inl kept ↦ rw kept (p, All-keep test n bs ps)
    | inr dropped ↦ rw dropped (All-keep test n bs ps)
  ]

  keep-Descending :
      (test : Aspect X W A → Bool) (bs : List (Aspect X W A))
      → Descending bs
      → Descending (keep test bs)
  unfolding keep
  keep-Descending test [] _ = tt
  keep-Descending test (b ∷ bs) (p, ps) = elim (Bool-cases (test b)) [
    | inl kept ↦ rw kept (All-keep test b.order bs p, keep-Descending test bs ps)
    | inr dropped ↦ rw dropped (keep-Descending test bs ps)
  ]

  -- The aspects of `as'`, in reverse, in front of `bs`.
  abbrev onto : List (Aspect X W A) → List (Aspect X W A) → List (Aspect X W A)
  onto [] bs = bs
  onto (a ∷ as') bs = onto as' (a ∷ bs)

  abbrev Below : List (Aspect X W A) → List (Aspect X W A) → Type 0
  Below as' bs = All (λ a. All (λ b. a.order ≤ b.order) bs) as'

  Below-cons :
      (a : Aspect X W A) (as' bs : List (Aspect X W A))
      → All (λ b. b.order ≤ a.order) as'
      → Below as' bs
      → Below as' (a ∷ bs)
  Below-cons a [] bs _ _ = tt
  Below-cons a (x ∷ as') bs (p, ps) (q, qs) = ((p, q), Below-cons a as' bs ps qs)

  Below-nil : (as' : List (Aspect X W A)) → Below as' []
  Below-nil [] = tt
  Below-nil (a ∷ as') = (tt, Below-nil as')

  onto-Ascending :
      (as' bs : List (Aspect X W A))
      → Descending as'
      → Ascending bs
      → Below as' bs
      → Ascending (onto as' bs)
  onto-Ascending [] bs _ up _ = up
  onto-Ascending (a ∷ as') bs (p, down) up (q, below) =
      onto-Ascending as' (a ∷ bs) down (q, up) (Below-cons a as' bs p below)

  onto-Perm : (as' bs : List (Aspect X W A)) → Permᴰ (as' ++ bs) (onto as' bs)
  onto-Perm [] bs = List.Permᴰ.refl bs
  onto-Perm (a ∷ as') bs = Permᴰ.trans (middle-Perm a as' bs) (onto-Perm as' (a ∷ bs))

  wrap-nest :
      (as' bs : List (Aspect X W A)) (method : Func X W A)
      → wrap as' (nest bs method) ≡ nest (onto as' bs) method
  unfolding wrap
  wrap-nest [] bs method = refl
  wrap-nest (a ∷ as') bs method = wrap-nest as' (a ∷ bs) method

  -- A call through a proxy runs the matching aspects nested in the order of their `@Order`: those of
  -- lower order surround those of higher order, and the method is innermost.
  pub call-nest :
      (aspects : List (Aspect X W A)) (method : Func X W A)
      → (nested : List (Aspect X W A)) × Permᴰ (keep (λ a. a.matches) aspects) nested
        × Ascending nested
        × (call aspects method ≡ nest nested method)
  unfolding call
  call-nest aspects method =
      let down = keep-Descending (λ a. a.matches) (sort aspects) (sort-Descending aspects) in
      let kept = keep (λ a. a.matches) (sort aspects) in
      (
        onto kept [],
        Permᴰ.trans (keep-Perm (λ a. a.matches) (sort-Perm aspects))
            (rw (append-nil kept) at (onto-Perm kept [])),
        onto-Ascending kept [] down tt (Below-nil kept),
        wrap-nest kept [] method,
      )
