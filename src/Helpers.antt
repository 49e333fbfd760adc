-- ===== src/Helpers.antt =====
-- The prototypes of the kernel's helper functions: the types of src/gpl/spec_prototypes.hpp. The
-- decoder takes the two look-ups as an argument; Table fills it with the table of
-- src/gpl/spec_prototypes.cpp.
pub mod Lower
pub mod Upper
pub mod Table
use ebpf_verifier.Base.{ℕ, Bool, String}

pub data Ret : Type 0 where
  integer void ptr_to_map_value_or_null : Ret

pub data Arg : Type 0 where
  dontcare const_shared_ptr ptr_to_map_key ptr_to_map_value : Arg
  ptr_to_mem ptr_to_mem_or_null ptr_to_uninit_mem : Arg
  const_size const_size_or_zero ptr_to_ctx anything : Arg

pub record FuncProto : Type 0 where
  pub name : String
  pub ret_type : Ret
  pub arg1_type : Arg
  pub arg2_type : Arg
  pub arg3_type : Arg
  pub arg4_type : Arg
  pub arg5_type : Arg
  pub pkt_access : Bool

-- `get_prototype` and `is_valid_prototype`, on an `unsigned int`.
pub record Prototypes : Type 0 where
  pub get_prototype : ℕ → FuncProto
  pub is_valid_prototype : ℕ → Bool

-- A prototype by its fields.
abbrev pub helper : String → Ret → Arg → Arg → Arg → Arg → Arg → Bool → FuncProto
helper name ret arg1 arg2 arg3 arg4 arg5 pkt_access = record {
  name = name;
  ret_type = ret;
  arg1_type = arg1;
  arg2_type = arg2;
  arg3_type = arg3;
  arg4_type = arg4;
  arg5_type = arg5;
  pkt_access = pkt_access;
}
