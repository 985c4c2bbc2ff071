-- ===== src/Rtsps/Front/Tests.antt =====
-- The ids of two clients.
use myyima.Prelude.{replicate, All-replicate, ◌*◌, ◌^◌, ◌<◌, ◌≡◌, ◌≢◌, refl, ◌∷◌, arith}
use myyima.Messages.{Name, na_sid}
use myyima.Rtsps.Front.{convert_sid, convert_loop}
use myyima.Rtsps.Front.Sids.{IsSid, IsDigit, convert_sid-lt, convert_sid-injective}

-- A seven and eighteen zeros.
abbrev sid_7 : Name
sid_7 = b'7' ∷ replicate 18 b'0'

sid_7-IsSid : IsSid sid_7
sid_7-IsSid = record {
  size = refl;
  digits = (
    record { above = omega arith; below = omega arith },
    All-replicate IsDigit 18 b'0' (record { above = omega arith; below = omega arith }),
  );
}

sid_7_runs : convert_sid sid_7 ≡ 7 * 10 ^ 18
unfolding convert_sid convert_loop
sid_7_runs = refl

convert_sid-lt_example : (convert_sid sid_7 < 10 ^ 19) × (convert_sid sid_7 ≢ na_sid)
convert_sid-lt_example = convert_sid-lt sid_7 sid_7-IsSid

convert_sid-injective_example : sid_7 ≡ sid_7
convert_sid-injective_example = convert_sid-injective sid_7 sid_7 sid_7-IsSid sid_7-IsSid refl
