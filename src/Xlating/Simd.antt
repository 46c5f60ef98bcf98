-- ===== src/Xlating/Simd.antt =====
-- src/xlating.c, the variants of process_optimized_cf32 for NEON and AVX: four partial sums of
-- complex products, and a loop over the samples that are left.
use sdr_server.Prelude.{
  ◌>>=◌, ℕ, zero, suc, ◌+◌, ◌*◌, ◌/◌, ◌%◌, ◌<◌, ◌≡◌, refl, sym, ap, ◌∙◌, ◌≡⟨◌⟩◌, ◌∎, ◌⊎◌, Option,
  none, some, List, [], ◌∷◌, length, arith,
}
use sdr_server.Xlating.Taps.{Complex, dot}

module _ (c : Complex) where
  open c use {Sample, Phase}

  -- The lanes of the vector registers, and what the two pointers have in front of them.
  pub record Lanes : Type 0 where
    pub s0 : Sample
    pub s1 : Sample
    pub s2 : Sample
    pub s3 : Sample

  abbrev pub step : Sample → Sample → Sample → Sample
  step s x t = c.add s (c.mul x t)

  -- `while (blkCnt > 0U)`: four samples and four taps a round.
  unfoldable pub quads :
      ℕ → Lanes → List Sample → List Sample → Option (Lanes × List Sample × List Sample)
  quads zero l xs ts = some (l, xs, ts)
  quads (suc n) l (x0 ∷ x1 ∷ x2 ∷ x3 ∷ xs) (t0 ∷ t1 ∷ t2 ∷ t3 ∷ ts) =
      quads n
        (record {
          s0 = step l.s0 x0 t0;
          s1 = step l.s1 x1 t1;
          s2 = step l.s2 x2 t2;
          s3 = step l.s3 x3 t3;
        })
        xs ts
  quads (suc n) l xs ts = none

  abbrev cleared : Lanes
  cleared = record { s0 = c.zero; s1 = c.zero; s2 = c.zero; s3 = c.zero }

  -- AVX: blocks of four, the tail by itself, and the sum of the tail and the lanes.
  unfoldable pub dot_avx : ℕ → List Sample → List Sample → Option Sample
  unfolding quads dot
  dot_avx n xs ts = quads (n / 4) cleared xs ts >>= λ (l, xs', ts').
      dot c (n % 4) c.zero xs' ts' >>= λ tail.
      some (c.add (c.add (c.add (c.add tail l.s0) l.s1) l.s2) l.s3)

  -- NEON: blocks of eight, which are two rounds; the lanes are added in pairs, and the tail goes on
  -- from their sum.
  unfoldable pub dot_neon : ℕ → List Sample → List Sample → Option Sample
  unfolding quads dot
  dot_neon n xs ts = quads (2 * (n / 8)) cleared xs ts >>= λ (l, xs', ts').
      dot c (n % 8) (c.add (c.add l.s0 l.s1) (c.add l.s2 l.s3)) xs' ts'

  dot_short :
      (n : ℕ) (temp : Sample) (xs ts : List Sample)
      → (length xs < n) ⊎ (length ts < n)
      → dot c n temp xs ts ≡ none
  unfolding dot
  dot_short zero temp xs ts h = absurd (omega arith)
  dot_short (suc n) temp [] ts h = refl
  dot_short (suc n) temp (x ∷ xs) [] h = refl
  dot_short (suc n) temp (x ∷ xs) (t ∷ ts) h = dot_short n (step temp x t) xs ts (omega arith)

  -- Arithmetic without rounding.
  pub record IsExact : Type 0 where
    pub add_assoc : (x y z : Sample) → c.add (c.add x y) z ≡ c.add x (c.add y z)
    pub add_comm : (x y : Sample) → c.add x y ≡ c.add y x
    pub zero-add : (x : Sample) → c.add c.zero x ≡ x

  abbrev total : Lanes → Sample
  total l = c.add (c.add l.s0 l.s1) (c.add l.s2 l.s3)

  module _ (exact : IsExact) where
    interchange : (a b p q : Sample) → c.add (c.add a p) (c.add b q) ≡ c.add (c.add a b) (c.add p q)
    interchange a b p q =
        c.add (c.add a p) (c.add b q)
        ≡⟨ exact.add_assoc a p (c.add b q) ⟩ c.add a (c.add p (c.add b q))
        ≡⟨ ap (c.add a) (sym (exact.add_assoc p b q)) ⟩ c.add a (c.add (c.add p b) q)
        ≡⟨ ap (λ z. c.add a (c.add z q)) (exact.add_comm p b) ⟩ c.add a (c.add (c.add b p) q)
        ≡⟨ ap (c.add a) (exact.add_assoc b p q) ⟩ c.add a (c.add b (c.add p q))
        ≡⟨ sym (exact.add_assoc a b (c.add p q)) ⟩ c.add (c.add a b) (c.add p q) ∎

    -- One round adds the four products to the total.
    total_round :
        (l : Lanes) (p0 p1 p2 p3 : Sample)
        → c.add (c.add (c.add l.s0 p0) (c.add l.s1 p1)) (c.add (c.add l.s2 p2) (c.add l.s3 p3))
          ≡ c.add (c.add (c.add (c.add (total l) p0) p1) p2) p3
    total_round l p0 p1 p2 p3 =
        rw
          (
            interchange l.s0 l.s1 p0 p1,
            interchange l.s2 l.s3 p2 p3,
            interchange (c.add l.s0 l.s1) (c.add l.s2 l.s3) (c.add p0 p1) (c.add p2 p3),
          )
          (simp exact.add_assoc)

    quads-dot :
        (n m r : ℕ) (l : Lanes) (xs ts : List Sample)
        → r ≡ 4 * n + m
        → (quads n l xs ts >>= λ (l', xs', ts'). dot c m (total l') xs' ts')
          ≡ dot c r (total l) xs ts
    unfolding quads dot
    quads-dot zero m r l xs ts e = ap (λ k. dot c k (total l) xs ts) {x = m} (omega arith)
    quads-dot (suc n) m zero l xs ts e = absurd (omega arith)
    quads-dot (suc n) m (suc zero) l xs ts e = absurd (omega arith)
    quads-dot (suc n) m (suc (suc zero)) l xs ts e = absurd (omega arith)
    quads-dot (suc n) m (suc (suc (suc zero))) l xs ts e = absurd (omega arith)
    quads-dot (suc n) m (suc (suc (suc (suc r)))) l (x0 ∷ x1 ∷ x2 ∷ x3 ∷ xs)
          (t0 ∷ t1 ∷ t2 ∷ t3 ∷ ts) e =
        quads-dot n m r
          (record {
            s0 = step l.s0 x0 t0;
            s1 = step l.s1 x1 t1;
            s2 = step l.s2 x2 t2;
            s3 = step l.s3 x3 t3;
          })
          xs ts (omega arith)
        ∙ ap (λ z. dot c r z xs ts)
            (total_round l (c.mul x0 t0) (c.mul x1 t1) (c.mul x2 t2) (c.mul x3 t3))
    quads-dot (suc n) m (suc (suc (suc (suc r)))) l xs ts e =
        sym (dot_short (suc (suc (suc (suc r)))) (total l) xs ts (omega arith))

    total-cleared : total cleared ≡ c.zero
    total-cleared = ap (λ z. c.add z z) (exact.zero-add c.zero) ∙ exact.zero-add c.zero

    pub dot_neon-dot : (n : ℕ) (xs ts : List Sample) → dot_neon n xs ts ≡ dot c n c.zero xs ts
    unfolding dot_neon
    dot_neon-dot n xs ts =
        quads-dot (2 * (n / 8)) (n % 8) n cleared xs ts (omega arith)
        ∙ ap (λ z. dot c n z xs ts) total-cleared

    -- The tail summed by itself, and then on top of the lanes.
    dot-add :
        (m : ℕ) (a b : Sample) (xs ts : List Sample)
        → dot c m (c.add a b) xs ts ≡ (dot c m b xs ts >>= λ z. some (c.add a z))
    unfolding dot
    dot-add zero a b xs ts = refl
    dot-add (suc m) a b (x ∷ xs) (t ∷ ts) =
        ap (λ z. dot c m z xs ts) (exact.add_assoc a b (c.mul x t)) ∙ dot-add m a (step b x t) xs ts
    dot-add (suc m) a b xs ts = refl

    regrouped :
        (l : Lanes) (z : Sample)
        → c.add (c.add (c.add (c.add z l.s0) l.s1) l.s2) l.s3 ≡ c.add z (total l)
    regrouped l z = simp exact.add_assoc

    collected :
        (l : Lanes) (o : Option Sample)
        → (o >>= λ tail. some (c.add (c.add (c.add (c.add tail l.s0) l.s1) l.s2) l.s3))
          ≡ (o >>= λ z. some (c.add (total l) z))
    collected l none = refl
    collected l (some z) = ap some (regrouped l z ∙ exact.add_comm z (total l))

    from_total :
        (m : ℕ) (o : Option (Lanes × List Sample × List Sample))
        → (o >>= λ (l, xs, ts). dot c m c.zero xs ts >>= λ tail.
            some (c.add (c.add (c.add (c.add tail l.s0) l.s1) l.s2) l.s3))
          ≡ (o >>= λ (l, xs, ts). dot c m (total l) xs ts)
    from_total m none = refl
    from_total m (some (l, xs, ts)) =
        collected l (dot c m c.zero xs ts)
        ∙ (sym (dot-add m (total l) c.zero xs ts)
            ∙ ap (λ z. dot c m z xs ts)
                (exact.add_comm (total l) c.zero ∙ exact.zero-add (total l)))

    pub dot_avx-dot : (n : ℕ) (xs ts : List Sample) → dot_avx n xs ts ≡ dot c n c.zero xs ts
    unfolding dot_avx
    dot_avx-dot n xs ts =
        from_total (n % 4) (quads (n / 4) cleared xs ts)
        ∙ (quads-dot (n / 4) (n % 4) n cleared xs ts (omega arith)
            ∙ ap (λ z. dot c n z xs ts) total-cleared)
