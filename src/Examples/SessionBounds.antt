-- ===== src/Examples/SessionBounds.antt =====
-- Where the query of the proof over the field of 17 elements lies, and how long its polynomials are.
use lambdaworks_cairo_prover.Prelude.{
  ℕ, zero, suc, ◌<◌, ◌≢◌, map, ◌≡◌, ◌≤◌, All, get_or, ◌⊎◌, inl, inr, ap₂, refl, ap, sym, ◌∙◌,
  length, arith, some_injective, some, List, [], ◌∷◌, get_elem?,
}
use lambdaworks_cairo_prover.Stark.CommittedTrees.{Fits}
use lambdaworks_cairo_prover.Field.Zmod.{F17, f17, zmod, reduce}
use lambdaworks_cairo_prover.Examples.Backend.{num}
use lambdaworks_cairo_prover.Examples.Session.{session, session_facts, session_z, session_root}

-- The value of neither point is another number.
other : (x : F17) → (x.0 ≡ 0) ⊎ (x.0 ≡ 14) → (m : ℕ) → m ≢ 0 → m ≢ 14 → x.0 ≡ m → ⊥
other x (inl zero_point) m ne ne' at = absurd (omega arith)
other x (inr query_point) m ne ne' at = absurd (omega arith)

-- Zero and the point of the first query, 14, are not z squared, nor z times a power of the root.
pub not_squared : (x : F17) → (x.0 ≡ 0) ⊎ (x.0 ≡ 14) → x ≢ f17.mul session.z session.z
unfolding f17 zmod reduce
not_squared x h e =
    let at : x.0 ≡ 13 = ap (λ (y : F17). y.0) e ∙ ap (λ (z : F17). (f17.mul z z).0) session_z in
    other x h 13 (omega arith) (omega arith) at

shifted :
    (x : F17) (k m : ℕ)
    → (f17.mul (num 9) (f17.pow (num 13) k)).0 ≡ m
    → x ≡ f17.mul session.z (f17.pow session.domain.trace_primitive_root k)
    → x.0 ≡ m
shifted x k m p e =
    ap (λ (y : F17). y.0) e
    ∙ ap₂ (λ (z root : F17). (f17.mul z (f17.pow root k)).0) session_z session_root
    ∙ p

pub not_shifted :
    (x : F17)
    → (x.0 ≡ 0) ⊎ (x.0 ≡ 14)
    → (k : ℕ) → k < 3
    → x ≢ f17.mul session.z (f17.pow session.domain.trace_primitive_root k)
unfolding f17 zmod reduce
not_shifted x h zero lt e = other x h 9 (omega arith) (omega arith) (shifted x 0 9 refl e)
not_shifted x h (suc zero) lt e = other x h 15 (omega arith) (omega arith) (shifted x 1 15 refl e)
not_shifted x h (suc (suc zero)) lt e =
    other x h 8 (omega arith) (omega arith) (shifted x 2 8 refl e)
not_shifted x h (suc (suc (suc k))) lt e = absurd (omega arith)

-- The polynomials of the session are short enough.
pub session-Fits : All (Fits session.domain) session.round_1_result.trace_polys
session-Fits =
    fit session.round_1_result.trace_polys session.domain.interpolation_domain_size session_facts.4
      session_facts.5
  where
    fit :
        (polys : List (List F17)) (n : ℕ)
        → n ≡ 4
        → map length polys ≡ 4 ∷ []
        → All (λ p. length p ≤ n) polys
    fit [] n e h = _
    fit (p ∷ []) n e h = (omega (arith, ap (λ l. get_or l 0 0) h), _)
    fit (p ∷ q ∷ polys) n e h = absurd (cc)

pub outside :
    (iota_0 : ℕ) (x : F17)
    → get_elem? session.round_4_result.iotas 0 ≡ some iota_0
    → get_elem? session.domain.lde_roots_of_unity_coset iota_0 ≡ some x
    → (x ≢ f17.mul session.z session.z)
      × ((k : ℕ) → k < 3 → x ≢ f17.mul session.z (f17.pow session.domain.trace_primitive_root k))
outside iota_0 x first at =
    let fourth : iota_0 ≡ 4 =
      some_injective (sym first ∙ ap (λ l. get_elem? l 0) session_facts.10) in
    let same : x ≡ session_facts.11 =
      some_injective (
        sym at
        ∙ ap (get_elem? session.domain.lde_roots_of_unity_coset) fourth
        ∙ session_facts.12) in
    let query_point : x.0 ≡ 14 = ap (λ (y : F17). y.0) same ∙ session_facts.13 in
    (not_squared x (inr query_point), not_shifted x (inr query_point))
