-- ===== src/Can/Types/Tests.antt =====
-- Runs and instances for pkg/can_smbus/src/core/io/cs_type.h and cs_type.c.
use rmm_2023_pre.Common.{◌/◌, ◌≡◌, refl}
use rmm_2023_pre.Can.Types.{gyro, create_id, driver_convert_name}

name-gyro : driver_convert_name (create_id gyro 0x13 / 16) ≡ "Gyro"
unfolding driver_convert_name create_id
name-gyro = refl

name-unknown : driver_convert_name 0x06 ≡ "Unknown"
unfolding driver_convert_name
name-unknown = refl
