-- ===== src/Blink/Leaf/Space.antt =====
-- src/index/b_page.h: the space of `data` in a leaf page.
use dsm_db.Shared.{ℕ, ◌+◌, ◌*◌, ◌≤◌, ◌-◌, ◌<◌, ◌≡◌, ap, ◌∙◌, true, arith}
use dsm_db.Blink.Leaf.{Leaf, blink_leaf_data_size, has_space}

-- `data` has space for `n` entries, and an entry for its key.
pub record Fits (l : Leaf) (n : ℕ) : Type 0 where
  pub key_fits : 4 ≤ l.width
  pub inside : n * l.width ≤ blink_leaf_data_size

times_mono : (n d w : ℕ) → n * w ≤ (n + d) * w
times_mono n d w = omega arith

pub Fits-fewer : (l : Leaf) (n k : ℕ) → k ≤ n → Fits l n → Fits l k
Fits-fewer l n k le f =
    let e : k + (n - k) ≡ n = omega arith in
    record {
      key_fits = f.key_fits;
      inside = omega (arith, times_mono k (n - k) l.width, f.inside, ap (λ x. x * l.width) e);
    }

-- The space is a matter of the width.
pub Fits-same : (l r : Leaf) (n k : ℕ) → l.width ≡ r.width → k ≡ n → Fits l n → Fits r k
Fits-same l r n k even same f = record {
  key_fits = omega (arith, even, f.key_fits);
  inside = omega (arith, f.inside, ap (λ w. k * w) even, ap (λ x. x * l.width) same);
}

pub Fits-lt : (l : Leaf) (n : ℕ) → Fits l n → n < 65535
Fits-lt l n f =
    let d : ℕ = l.width - 4 in
    let e : l.width ≡ 4 + d = omega (arith, f.key_fits) in
    let all : n * l.width ≡ n * 4 + n * d = ap (λ x. n * x) e ∙ omega arith in
    omega (arith, all, f.inside)

pub has_space_lem : (l : Leaf) → Fits l (l.records + 1) → has_space l ≡ true
unfolding has_space
has_space_lem l f = ground (arith, f.key_fits, f.inside)
