-- ===== src/Can/Data.antt =====
-- pkg/can_smbus/src/core/cs_data.h: the data of a frame with the type that the program gives it. The
-- union is its four bytes, in little-endian order; a number is given by its bits. What a constructor
-- does not write stays as the stack had it.
pub mod Sizes
mod Tests
use rmm_2023_pre.Common.{
  ℕ, zero, suc, ◌+◌, ◌/◌, ◌%◌, ◌^◌, Bool, List, [], ◌∷◌, ◌++◌, ◌||◌, ◌==◌, if◌then◌else◌, take,
  drop,
}

-- `CSData_type_t`.
pub data DataType : Type 0 where
  none_type buff1 buff2 buff3 buff4 : DataType
  int32 int16 int8 uint32 uint16 uint8 float bool null : DataType

abbrev pub type_code : DataType → ℕ
type_code none_type = 0
type_code buff1 = 1
type_code buff2 = 2
type_code buff3 = 3
type_code buff4 = 4
type_code int32 = 5
type_code int16 = 6
type_code int8 = 7
type_code uint32 = 8
type_code uint16 = 9
type_code uint8 = 10
type_code float = 11
type_code bool = 12
type_code null = 13

-- `CSData_t`. The type is a number: receivers store the length of a frame in it.
pub record Data : Type 0 where
  pub type : ℕ
  pub bytes : List ℕ

pub get_size : Data → ℕ
get_size d =
    if d.type == type_code int32
      || d.type == type_code uint32
      || d.type == type_code float
      || d.type == type_code buff4
    then 4
    else if d.type == type_code buff3
    then 3
    else if d.type == type_code int16 || d.type == type_code uint16 || d.type == type_code buff2
    then 2
    else if d.type == type_code int8
        || d.type == type_code uint8
        || d.type == type_code bool
        || d.type == type_code buff1
    then 1
    else 0

-- The `n` low bytes of a number.
pub little_endian : ℕ → ℕ → List ℕ
little_endian zero v = []
little_endian (suc n) v = v % 256 ∷ little_endian n (v / 256)

abbrev over : DataType → ℕ → ℕ → List ℕ → Data
over t n v stack = record { type = type_code t; bytes = little_endian n v ++ drop n stack }

pub create_int32 : ℕ → List ℕ → Data
create_int32 v stack = over int32 4 v stack

pub create_int16 : ℕ → List ℕ → Data
create_int16 v stack = over int16 2 v stack

pub create_int8 : ℕ → List ℕ → Data
create_int8 v stack = over int8 1 v stack

pub create_uint32 : ℕ → List ℕ → Data
create_uint32 v stack = over uint32 4 v stack

pub create_uint16 : ℕ → List ℕ → Data
create_uint16 v stack = over uint16 2 v stack

pub create_uint8 : ℕ → List ℕ → Data
create_uint8 v stack = over uint8 1 v stack

pub create_float : ℕ → List ℕ → Data
create_float v stack = over float 4 v stack

pub create_bool : ℕ → List ℕ → Data
create_bool v stack = over bool 1 v stack

pub create_buff4 : List ℕ → List ℕ → Data
create_buff4 v stack = record { type = type_code buff4; bytes = take 4 v ++ drop 4 stack }

pub create_buff3 : List ℕ → List ℕ → Data
create_buff3 v stack = record { type = type_code buff3; bytes = take 3 v ++ drop 3 stack }

pub create_buff2 : List ℕ → List ℕ → Data
create_buff2 v stack = record { type = type_code buff2; bytes = take 2 v ++ drop 2 stack }

pub create_buff1 : List ℕ → List ℕ → Data
create_buff1 v stack = record { type = type_code buff1; bytes = take 1 v ++ drop 1 stack }

pub create_null : List ℕ → Data
create_null stack = record { type = type_code null; bytes = stack }
