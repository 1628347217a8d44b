-- ===== src/Comio2/Ids.antt =====
-- src/interfaces/type_001/comio2.c: the numbers of the frames.
use mea_edomus_lite.Common.{
  ℕ, zero, suc, ◌+◌, ◌-◌, ◌%◌, ◌≤◌, ◌<◌, ◌≡◌, ◌≢◌, refl, ◌∙◌, Bool, true, false, if◌then◌else◌, ltb,
  arith,
}
use mea_edomus_lite.Comio2.{Ad, get_frame_data_id, next_id}

-- After some calls.
numbered_on : ℕ → Ad → Ad
unfolding get_frame_data_id
numbered_on zero ad = ad
numbered_on (suc k) ad = numbered_on k (get_frame_data_id ad).1

-- The number that the call behind k others returns.
pub nth_id : ℕ → Ad → ℕ
unfolding numbered_on get_frame_data_id
nth_id k ad = (get_frame_data_id (numbered_on k ad)).0

next_id-cyclic : (id : ℕ) → 1 ≤ id → id ≤ 200 → next_id id ≡ id % 200 + 1
unfolding next_id
next_id-cyclic id h1 h2 = chosen (ltb 200 (id + 1)) refl
  where
    chosen : (b : Bool) → ltb 200 (id + 1) ≡ b → (if b then 1 else id + 1) ≡ id % 200 + 1
    chosen true e = ground (arith, h1, h2)
    chosen false e = ground (arith, h1, h2)

nth_id-cyclic :
    (k : ℕ) (ad : Ad)
    → 1 ≤ ad.frame_id
    → ad.frame_id ≤ 200
    → nth_id k ad ≡ (ad.frame_id - 1 + k) % 200 + 1
unfolding nth_id numbered_on get_frame_data_id
nth_id-cyclic zero ad h1 h2 = omega (arith, h1, h2)
nth_id-cyclic (suc k) ad h1 h2 =
    let next = next_id-cyclic ad.frame_id h1 h2 in
    let rest =
      nth_id-cyclic k (record ad { frame_id = next_id ad.frame_id }) (omega (arith, next, h1, h2))
        (omega (arith, next, h1, h2)) in
    rest ∙ omega (arith, next, h1, h2)

-- From a number between 1 and 200 on, _comio2_get_frame_data_id always returns numbers between 1
-- and 200, and no number twice in 200 calls.
pub get_frame_data_id-fresh :
    (ad : Ad) (i j : ℕ)
    → 1 ≤ ad.frame_id
    → ad.frame_id ≤ 200
    → i < j
    → j < i + 200
    → ((1 ≤ nth_id i ad) × (nth_id i ad ≤ 200)) × (nth_id i ad ≢ nth_id j ad)
get_frame_data_id-fresh ad i j h1 h2 hi hj =
    let first = nth_id-cyclic i ad h1 h2 in
    let second = nth_id-cyclic j ad h1 h2 in
    ((omega (arith, first), omega (arith, first)), λ e. omega (arith, first, second, e, hi, hj))
