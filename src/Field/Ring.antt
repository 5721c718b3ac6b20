-- ===== src/Field/Ring.antt =====
-- Equations of commutative rings by evaluation: both sides become sums of monomials with the
-- subtracted ones moved across, and the sums are compared once they are sorted.
use lambdaworks_cairo_prover.Prelude.{
  ℕ, ◌≡◌, refl, sym, ap, ap₂, ◌∙◌, arith, Bool, true, false, ◌&&◌, List, [], ◌∷◌, ◌++◌, map, get_or,
  ◌==◌, ltb, leb, if◌then◌else◌, Bool-cases, inl, inr, ◌≡⟨◌⟩◌, ◌∎,
}
use lambdaworks_cairo_prover.Field.{Field, ◌⊕◌, ◌⊖◌, ◌⊗◌}
use lambdaworks_cairo_prover.Field.Laws.{
  zero-add, mul-one, one-mul, zero-mul, mul-zero, add-mul, sub-add_cancel, add_right_cancel,
}

infixl 65 ◌⊞◌ ◌⊟◌
infixl 70 ◌⊠◌
pub data Expr : Type 0 where
  var : ℕ → Expr
  nil : Expr
  unit : Expr
  ◌⊞◌ : Expr → Expr → Expr
  ◌⊟◌ : Expr → Expr → Expr
  ◌⊠◌ : Expr → Expr → Expr

-- A sum of products of variables.
abbrev Sum : Type 0
Sum = List (List ℕ)

times_sum : Sum → Sum → Sum
times_sum [] q = []
times_sum (m ∷ p) q = map (◌++◌ m) q ++ times_sum p q

-- The part of an expression that is added, and the part that is subtracted.
mutual
  unfolding times_sum

  added : Expr → Sum
  added (var i) = (i ∷ []) ∷ []
  added nil = []
  added unit = [] ∷ []
  added (a ⊞ b) = added a ++ added b
  added (a ⊟ b) = added a ++ taken b
  added (a ⊠ b) = times_sum (added a) (added b) ++ times_sum (taken a) (taken b)

  taken : Expr → Sum
  taken (var i) = []
  taken nil = []
  taken unit = []
  taken (a ⊞ b) = taken a ++ taken b
  taken (a ⊟ b) = taken a ++ added b
  taken (a ⊠ b) = times_sum (added a) (taken b) ++ times_sum (taken a) (added b)

insert : ℕ → List ℕ → List ℕ
insert i [] = i ∷ []
insert i (j ∷ m) = if leb i j then i ∷ j ∷ m else j ∷ insert i m

sort : List ℕ → List ℕ
unfolding insert
sort [] = []
sort (i ∷ m) = insert i (sort m)

before : List ℕ → List ℕ → Bool
before [] n = true
before (i ∷ m) [] = false
before (i ∷ m) (j ∷ n) = if i == j then before m n else ltb i j

insert_sum : List ℕ → Sum → Sum
unfolding before
insert_sum m [] = m ∷ []
insert_sum m (n ∷ p) = if before m n then m ∷ n ∷ p else n ∷ insert_sum m p

canon : Sum → Sum
unfolding insert_sum sort
canon [] = []
canon (m ∷ p) = insert_sum (sort m) (canon p)

same_mono : List ℕ → List ℕ → Bool
same_mono [] [] = true
same_mono (i ∷ m) (j ∷ n) = i == j && same_mono m n
same_mono _ _ = false

same_sum : Sum → Sum → Bool
unfolding same_mono
same_sum [] [] = true
same_sum (m ∷ p) (n ∷ q) = same_mono m n && same_sum p q
same_sum _ _ = false

same_mono→eq : (m n : List ℕ) → same_mono m n ≡ true → m ≡ n
unfolding same_mono
same_mono→eq [] [] h = refl
same_mono→eq [] (j ∷ n) h = cc
same_mono→eq (i ∷ m) [] h = cc
same_mono→eq (i ∷ m) (j ∷ n) h = ground (arith, same_mono→eq m n)

same_sum→eq : (p q : Sum) → same_sum p q ≡ true → p ≡ q
unfolding same_sum
same_sum→eq [] [] h = refl
same_sum→eq [] (n ∷ q) h = cc
same_sum→eq (m ∷ p) [] h = cc
same_sum→eq (m ∷ p) (n ∷ q) h = ground (arith, same_mono→eq m n, same_sum→eq p q)

unfoldable pub agree : Expr → Expr → Bool
unfolding same_sum canon added
agree a b = same_sum (canon (added a ++ taken b)) (canon (added b ++ taken a))

module _ {F : Type 0} ⦃K : Field F⦄ where
  abbrev pub eval : List F → Expr → F
  eval env (var i) = get_or env i K.zero
  eval env nil = K.zero
  eval env unit = K.one
  eval env (a ⊞ b) = eval env a ⊕ eval env b
  eval env (a ⊟ b) = eval env a ⊖ eval env b
  eval env (a ⊠ b) = eval env a ⊗ eval env b

  mono : List F → List ℕ → F
  mono env [] = K.one
  mono env (i ∷ m) = get_or env i K.zero ⊗ mono env m

  sum : List F → Sum → F
  sum env [] = K.zero
  sum env (m ∷ p) = mono env m ⊕ sum env p

  mono-append : (env : List F) (m n : List ℕ) → mono env (m ++ n) ≡ mono env m ⊗ mono env n
  unfolding mono
  mono-append env [] n = sym (one-mul (mono env n))
  mono-append env (i ∷ m) n = rw (mono-append env m n) (sym (K.mul_assoc _ _ _))

  sum-append : (env : List F) (p q : Sum) → sum env (p ++ q) ≡ sum env p ⊕ sum env q
  unfolding sum
  sum-append env [] q = sym (zero-add (sum env q))
  sum-append env (m ∷ p) q = rw (sum-append env p q) (sym (K.add_assoc _ _ _))

  sum-map :
      (env : List F) (m : List ℕ) (q : Sum) → sum env (map (◌++◌ m) q) ≡ mono env m ⊗ sum env q
  unfolding sum
  sum-map env m [] = sym (mul-zero (mono env m))
  sum-map env m (n ∷ q) =
      rw (sum-map env m q, mono-append env m n)
        (sym (K.mul-add (mono env m) (mono env n) (sum env q)))

  sum-times_sum : (env : List F) (p q : Sum) → sum env (times_sum p q) ≡ sum env p ⊗ sum env q
  unfolding sum times_sum
  sum-times_sum env [] q = sym (zero-mul (sum env q))
  sum-times_sum env (m ∷ p) q =
      sum-append env (map (◌++◌ m) q) (times_sum p q)
      ∙ rw (sum-map env m q, sum-times_sum env p q)
          (sym (add-mul (mono env m) (sum env p) (sum env q)))

  left_comm : (a b c : F) → a ⊗ (b ⊗ c) ≡ b ⊗ (a ⊗ c)
  left_comm a b c = sym (K.mul_assoc a b c) ∙ rw (K.mul_comm a b) (K.mul_assoc b a c)

  add_left_comm : (a b c : F) → a ⊕ (b ⊕ c) ≡ b ⊕ (a ⊕ c)
  add_left_comm a b c = sym (K.add_assoc a b c) ∙ rw (K.add_comm a b) (K.add_assoc b a c)

  mono-insert : (env : List F) (i : ℕ) (m : List ℕ) → mono env (insert i m) ≡ mono env (i ∷ m)
  unfolding insert mono
  mono-insert env i [] = refl
  mono-insert env i (j ∷ m) = elim (Bool-cases (leb i j)) [
    | inl h ↦ rw h
    | inr h ↦ rw (h, mono-insert env i m) (left_comm _ _ _)
  ]

  mono-sort : (env : List F) (m : List ℕ) → mono env (sort m) ≡ mono env m
  unfolding sort mono
  mono-sort env [] = refl
  mono-sort env (i ∷ m) =
      mono-insert env i (sort m) ∙ ap (K.mul (get_or env i K.zero)) (mono-sort env m)

  sum-insert_sum :
      (env : List F) (m : List ℕ) (p : Sum) → sum env (insert_sum m p) ≡ mono env m ⊕ sum env p
  unfolding insert_sum sum
  sum-insert_sum env m [] = refl
  sum-insert_sum env m (n ∷ p) = elim (Bool-cases (before m n)) [
    | inl h ↦ rw h
    | inr h ↦ rw (h, sum-insert_sum env m p) (add_left_comm _ _ _)
  ]

  sum-canon : (env : List F) (p : Sum) → sum env (canon p) ≡ sum env p
  unfolding canon sum
  sum-canon env [] = refl
  sum-canon env (m ∷ p) =
      sum-insert_sum env (sort m) (canon p) ∙ ap₂ K.add (mono-sort env m) (sum-canon env p)

  add_interchange : (a b c d : F) → a ⊕ b ⊕ (c ⊕ d) ≡ a ⊕ c ⊕ (b ⊕ d)
  add_interchange a b c d =
      K.add_assoc a b (c ⊕ d) ∙ rw (add_left_comm b c d) (sym (K.add_assoc a c (b ⊕ d)))

  minus_lem : (a b m n : F) → a ⊖ b ⊕ (m ⊕ (b ⊕ n)) ≡ a ⊕ m ⊕ n
  minus_lem a b m n =
      rw (add_left_comm m b n, ← K.add_assoc, sub-add_cancel a b) (sym (K.add_assoc a m n))

  times_lem : (a b m n : F) → a ⊗ b ⊕ ((a ⊕ m) ⊗ n ⊕ m ⊗ (b ⊕ n)) ≡ (a ⊕ m) ⊗ (b ⊕ n) ⊕ m ⊗ n
  times_lem a b m n =
      simp (add-mul, K.mul-add, K.add_assoc) (rw (add_left_comm (m ⊗ n) (m ⊗ b) (m ⊗ n)))

  -- An expression and its subtracted part make up its added part.
  eval-add-taken : (env : List F) (e : Expr) → eval env e ⊕ sum env (taken e) ≡ sum env (added e)
  unfolding added sum mono
  eval-add-taken env (var i) = rw mul-one
  eval-add-taken env nil = zero-add K.zero
  eval-add-taken env unit = refl
  eval-add-taken env (a ⊞ b) =
      rw
        (
          sum-append env (taken a) (taken b),
          sum-append env (added a) (added b),
          ← eval-add-taken env a,
          ← eval-add-taken env b,
        )
        (add_interchange _ _ _ _)
  eval-add-taken env (a ⊟ b) =
      rw
        (
          sum-append env (taken a) (added b),
          sum-append env (added a) (taken b),
          ← eval-add-taken env a,
          ← eval-add-taken env b,
        )
        (minus_lem _ _ _ _)
  eval-add-taken env (a ⊠ b) =
      rw
        (
          sum-append env (times_sum (added a) (taken b)) (times_sum (taken a) (added b)),
          sum-append env (times_sum (added a) (added b)) (times_sum (taken a) (taken b)),
          sum-times_sum env (added a) (taken b),
          sum-times_sum env (taken a) (added b),
          sum-times_sum env (added a) (added b),
          sum-times_sum env (taken a) (taken b),
          ← eval-add-taken env a,
          ← eval-add-taken env b,
        )
        (times_lem _ _ _ _)

  -- Expressions that agree have equal values.
  pub ring : (env : List F) (a b : Expr) → agree a b ≡ true → eval env a ≡ eval env b
  unfolding agree
  ring env a b h =
      let A = eval env a in
      let B = eval env b in
      let m = sum env (taken a) in
      let n = sum env (taken b) in
      add_right_cancel A B (m ⊕ n) (
        A ⊕ (m ⊕ n)
        ≡⟨ sym (K.add_assoc A m n) ⟩ A ⊕ m ⊕ n
        ≡⟨ ap (λ x. x ⊕ n) (eval-add-taken env a) ⟩ sum env (added a) ⊕ n
        ≡⟨ sym (sum-append env (added a) (taken b)) ⟩ sum env (added a ++ taken b)
        ≡⟨ sym (sum-canon env (added a ++ taken b)) ⟩ sum env (canon (added a ++ taken b))
        ≡⟨ ap (sum env) (same_sum→eq _ _ h) ⟩ sum env (canon (added b ++ taken a))
        ≡⟨ sum-canon env (added b ++ taken a) ⟩ sum env (added b ++ taken a)
        ≡⟨ sum-append env (added b) (taken a) ⟩ sum env (added b) ⊕ m
        ≡⟨ ap (λ x. x ⊕ m) (sym (eval-add-taken env b)) ⟩ B ⊕ n ⊕ m
        ≡⟨ K.add_assoc B n m ⟩ B ⊕ (n ⊕ m)
        ≡⟨ ap (K.add B) (K.add_comm n m) ⟩ B ⊕ (m ⊕ n) ∎)
