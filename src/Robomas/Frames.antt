-- ===== src/Robomas/Frames.antt =====
-- pkg/robomas/src/c/rm_m3508.c: the packed structures that it sends and receives, in the byte order of
-- the machine, which is little-endian. A field is its word.
pub mod RoundTrip
use rmm_2023_pre.Common.{ℕ, zero, suc, ◌+◌, ◌*◌, ◌/◌, ◌%◌, List, [], ◌∷◌, ◌++◌, take, drop, get_or}

-- The bytes of a word of `n` bytes, and the word of some bytes.
unfoldable pub le_bytes : ℕ → ℕ → List ℕ
le_bytes zero x = []
le_bytes (suc n) x = (x % 256) ∷ le_bytes n (x / 256)

unfoldable pub le_word : List ℕ → ℕ
le_word [] = 0
le_word (b ∷ bs) = b + 256 * le_word bs

-- The `n` bytes from `i` on, as a word.
unfoldable pub word_at : ℕ → ℕ → List ℕ → ℕ
word_at i n bytes = le_word (take n (drop i bytes))

-- `struct RM_ethCoefFrame_t`.
pub record CoefFrame : Type 0 where
  pub mot_id : ℕ
  pub p : ℕ
  pub i : ℕ
  pub d : ℕ

unfoldable pub coef_bytes : CoefFrame → List ℕ
coef_bytes f = f.mot_id ∷ (le_bytes 4 f.p ++ (le_bytes 4 f.i ++ le_bytes 4 f.d))

unfoldable pub read_coef : List ℕ → CoefFrame
read_coef bytes = record {
  mot_id = word_at 0 1 bytes;
  p = word_at 1 4 bytes;
  i = word_at 5 4 bytes;
  d = word_at 9 4 bytes;
}

-- `struct RM_ethAdvancedCoefFrame_t`.
pub record AdvancedCoefFrame : Type 0 where
  pub mot_id : ℕ
  pub p : ℕ
  pub i : ℕ
  pub d : ℕ
  pub inverse : ℕ

unfoldable pub advanced_coef_bytes : AdvancedCoefFrame → List ℕ
advanced_coef_bytes f =
    f.mot_id ∷ (le_bytes 4 f.p ++ (le_bytes 4 f.i ++ (le_bytes 4 f.d ++ (f.inverse ∷ []))))

unfoldable pub read_advanced_coef : List ℕ → AdvancedCoefFrame
read_advanced_coef bytes = record {
  mot_id = word_at 0 1 bytes;
  p = word_at 1 4 bytes;
  i = word_at 5 4 bytes;
  d = word_at 9 4 bytes;
  inverse = word_at 13 1 bytes;
}

-- `struct RMM3508_ethRpmSyncFrame_t`.
pub record RpmSyncFrame : Type 0 where
  pub mot_id1 : ℕ
  pub mot_id2 : ℕ
  pub rpm : ℕ

unfoldable pub rpm_sync_bytes : RpmSyncFrame → List ℕ
rpm_sync_bytes f = f.mot_id1 ∷ f.mot_id2 ∷ le_bytes 2 f.rpm

-- `struct RMM3508_ethNewFrame_t`.
pub record NewFrame : Type 0 where
  pub mot_id : ℕ
  pub power_mode : ℕ
  pub value : ℕ
  pub mot_type : ℕ

unfoldable pub new_bytes : NewFrame → List ℕ
new_bytes f = f.mot_id ∷ f.power_mode ∷ (le_bytes 2 f.value ++ (f.mot_type ∷ []))

-- `struct RM_ethPitchFrame_t`.
pub record PitchFrame : Type 0 where
  pub mot_id : ℕ
  pub base_power : ℕ
  pub target_rota : ℕ

unfoldable pub pitch_bytes : PitchFrame → List ℕ
pitch_bytes f = f.mot_id ∷ (le_bytes 2 f.base_power ++ le_bytes 8 f.target_rota)

-- `struct RM_ethSensData_t`, of 15 bytes, and an array of them.
pub record SensData : Type 0 where
  pub rpm : ℕ
  pub cur : ℕ
  pub set_cur : ℕ
  pub rota : ℕ
  pub status : ℕ

abbrev pub sens_size : ℕ
sens_size = 15

unfoldable pub read_sens : List ℕ → SensData
read_sens bytes = record {
  rpm = word_at 0 2 bytes;
  cur = word_at 2 2 bytes;
  set_cur = word_at 4 2 bytes;
  rota = word_at 6 8 bytes;
  status = word_at 14 1 bytes;
}

unfoldable pub read_sens_array : ℕ → List ℕ → List SensData
read_sens_array zero bytes = []
read_sens_array (suc n) bytes = read_sens bytes ∷ read_sens_array n (drop sens_size bytes)
