-- ===== src/Helpers/Lower.antt =====
-- The prototypes of the first 41 helper functions of src/gpl/spec_prototypes.cpp, in the order of
-- their numbers. A field that the source leaves out is the first enumerator, or false.
use ebpf_verifier.Base.{true, false}
use ebpf_verifier.Helpers.{Ret, Arg, FuncProto, helper}

abbrev pub unspec_proto : FuncProto
unspec_proto =
    helper "unspec" Ret.integer Arg.dontcare Arg.dontcare Arg.dontcare Arg.dontcare Arg.dontcare
      false

abbrev pub map_lookup_elem_proto : FuncProto
map_lookup_elem_proto =
    helper "map_lookup_elem" Ret.ptr_to_map_value_or_null Arg.const_shared_ptr Arg.ptr_to_map_key
      Arg.dontcare Arg.dontcare Arg.dontcare true

abbrev pub map_update_elem_proto : FuncProto
map_update_elem_proto =
    helper "map_update_elem" Ret.integer Arg.const_shared_ptr Arg.ptr_to_map_key
      Arg.ptr_to_map_value Arg.anything Arg.dontcare true

abbrev pub map_delete_elem_proto : FuncProto
map_delete_elem_proto =
    helper "map_delete_elem" Ret.integer Arg.const_shared_ptr Arg.ptr_to_map_key Arg.dontcare
      Arg.dontcare Arg.dontcare true

abbrev pub probe_read_proto : FuncProto
probe_read_proto =
    helper "probe_read" Ret.integer Arg.ptr_to_uninit_mem Arg.const_size_or_zero Arg.anything
      Arg.dontcare Arg.dontcare false

abbrev pub ktime_get_ns_proto : FuncProto
ktime_get_ns_proto =
    helper "ktime_get_ns" Ret.integer Arg.dontcare Arg.dontcare Arg.dontcare Arg.dontcare
      Arg.dontcare false

abbrev pub trace_printk_proto : FuncProto
trace_printk_proto =
    helper "trace_printk" Ret.integer Arg.ptr_to_mem Arg.const_size Arg.dontcare Arg.dontcare
      Arg.dontcare false

abbrev pub get_prandom_u32_proto : FuncProto
get_prandom_u32_proto =
    helper "get_prandom_u32" Ret.integer Arg.dontcare Arg.dontcare Arg.dontcare Arg.dontcare
      Arg.dontcare false

abbrev pub get_smp_processor_id_proto : FuncProto
get_smp_processor_id_proto =
    helper "get_smp_processor_id" Ret.integer Arg.dontcare Arg.dontcare Arg.dontcare Arg.dontcare
      Arg.dontcare false

abbrev pub skb_store_bytes_proto : FuncProto
skb_store_bytes_proto =
    helper "skb_store_bytes" Ret.integer Arg.ptr_to_ctx Arg.anything Arg.ptr_to_mem Arg.const_size
      Arg.anything false

abbrev pub l3_csum_replace_proto : FuncProto
l3_csum_replace_proto =
    helper "l3_csum_replace" Ret.integer Arg.ptr_to_ctx Arg.anything Arg.anything Arg.anything
      Arg.anything false

abbrev pub l4_csum_replace_proto : FuncProto
l4_csum_replace_proto =
    helper "l4_csum_replace" Ret.integer Arg.ptr_to_ctx Arg.anything Arg.anything Arg.anything
      Arg.anything false

abbrev pub tail_call_proto : FuncProto
tail_call_proto =
    helper "tail_call" Ret.void Arg.ptr_to_ctx Arg.const_shared_ptr Arg.anything Arg.dontcare
      Arg.dontcare false

abbrev pub clone_redirect_proto : FuncProto
clone_redirect_proto =
    helper "clone_redirect" Ret.integer Arg.ptr_to_ctx Arg.anything Arg.anything Arg.dontcare
      Arg.dontcare false

abbrev pub get_current_pid_tgid_proto : FuncProto
get_current_pid_tgid_proto =
    helper "get_current_pid_tgid" Ret.integer Arg.dontcare Arg.dontcare Arg.dontcare Arg.dontcare
      Arg.dontcare false

abbrev pub get_current_uid_gid_proto : FuncProto
get_current_uid_gid_proto =
    helper "get_current_uid_gid" Ret.integer Arg.dontcare Arg.dontcare Arg.dontcare Arg.dontcare
      Arg.dontcare false

abbrev pub get_current_comm_proto : FuncProto
get_current_comm_proto =
    helper "get_current_comm" Ret.integer Arg.ptr_to_uninit_mem Arg.const_size Arg.dontcare
      Arg.dontcare Arg.dontcare false

abbrev pub get_cgroup_classid_proto : FuncProto
get_cgroup_classid_proto =
    helper "get_cgroup_classid" Ret.integer Arg.ptr_to_ctx Arg.dontcare Arg.dontcare Arg.dontcare
      Arg.dontcare false

abbrev pub skb_vlan_push_proto : FuncProto
skb_vlan_push_proto =
    helper "skb_vlan_push" Ret.integer Arg.ptr_to_ctx Arg.anything Arg.anything Arg.dontcare
      Arg.dontcare false

abbrev pub skb_vlan_pop_proto : FuncProto
skb_vlan_pop_proto =
    helper "skb_vlan_pop" Ret.integer Arg.ptr_to_ctx Arg.dontcare Arg.dontcare Arg.dontcare
      Arg.dontcare false

abbrev pub skb_get_tunnel_key_proto : FuncProto
skb_get_tunnel_key_proto =
    helper "skb_get_tunnel_key" Ret.integer Arg.ptr_to_ctx Arg.ptr_to_uninit_mem Arg.const_size
      Arg.anything Arg.dontcare false

abbrev pub skb_set_tunnel_key_proto : FuncProto
skb_set_tunnel_key_proto =
    helper "skb_set_tunnel_key" Ret.integer Arg.ptr_to_ctx Arg.ptr_to_mem Arg.const_size
      Arg.anything Arg.dontcare false

abbrev pub perf_event_read_proto : FuncProto
perf_event_read_proto =
    helper "perf_event_read" Ret.integer Arg.const_shared_ptr Arg.anything Arg.dontcare Arg.dontcare
      Arg.dontcare false

abbrev pub redirect_proto : FuncProto
redirect_proto =
    helper "redirect" Ret.integer Arg.anything Arg.anything Arg.dontcare Arg.dontcare Arg.dontcare
      false

abbrev pub get_route_realm_proto : FuncProto
get_route_realm_proto =
    helper "get_route_realm" Ret.integer Arg.ptr_to_ctx Arg.dontcare Arg.dontcare Arg.dontcare
      Arg.dontcare false

abbrev pub perf_event_output_proto : FuncProto
perf_event_output_proto =
    helper "perf_event_output" Ret.integer Arg.ptr_to_ctx Arg.const_shared_ptr Arg.anything
      Arg.ptr_to_mem Arg.const_size_or_zero false

abbrev pub skb_load_bytes_proto : FuncProto
skb_load_bytes_proto =
    helper "skb_load_bytes" Ret.integer Arg.ptr_to_ctx Arg.anything Arg.ptr_to_uninit_mem
      Arg.const_size Arg.dontcare false

abbrev pub get_stackid_proto : FuncProto
get_stackid_proto =
    helper "get_stackid" Ret.integer Arg.ptr_to_ctx Arg.const_shared_ptr Arg.anything Arg.dontcare
      Arg.dontcare false

abbrev pub csum_diff_proto : FuncProto
csum_diff_proto =
    helper "csum_diff" Ret.integer Arg.ptr_to_mem_or_null Arg.const_size_or_zero
      Arg.ptr_to_mem_or_null Arg.const_size_or_zero Arg.anything true

abbrev pub skb_get_tunnel_opt_proto : FuncProto
skb_get_tunnel_opt_proto =
    helper "skb_get_tunnel_opt" Ret.integer Arg.ptr_to_ctx Arg.ptr_to_uninit_mem Arg.const_size
      Arg.dontcare Arg.dontcare false

abbrev pub skb_set_tunnel_opt_proto : FuncProto
skb_set_tunnel_opt_proto =
    helper "skb_set_tunnel_opt" Ret.integer Arg.ptr_to_ctx Arg.ptr_to_mem Arg.const_size
      Arg.dontcare Arg.dontcare false

abbrev pub skb_change_proto_proto : FuncProto
skb_change_proto_proto =
    helper "skb_change_proto" Ret.integer Arg.ptr_to_ctx Arg.anything Arg.anything Arg.dontcare
      Arg.dontcare false

abbrev pub skb_change_type_proto : FuncProto
skb_change_type_proto =
    helper "skb_change_type" Ret.integer Arg.ptr_to_ctx Arg.anything Arg.dontcare Arg.dontcare
      Arg.dontcare false

abbrev pub skb_under_cgroup_proto : FuncProto
skb_under_cgroup_proto =
    helper "skb_under_cgroup" Ret.integer Arg.ptr_to_ctx Arg.const_shared_ptr Arg.anything
      Arg.dontcare Arg.dontcare false

abbrev pub get_hash_recalc_proto : FuncProto
get_hash_recalc_proto =
    helper "get_hash_recalc" Ret.integer Arg.ptr_to_ctx Arg.dontcare Arg.dontcare Arg.dontcare
      Arg.dontcare false

abbrev pub get_current_task_proto : FuncProto
get_current_task_proto =
    helper "get_current_task" Ret.integer Arg.dontcare Arg.dontcare Arg.dontcare Arg.dontcare
      Arg.dontcare false

abbrev pub probe_write_user_proto : FuncProto
probe_write_user_proto =
    helper "probe_write_user" Ret.integer Arg.anything Arg.ptr_to_mem Arg.const_size Arg.dontcare
      Arg.dontcare false

abbrev pub current_task_under_cgroup_proto : FuncProto
current_task_under_cgroup_proto =
    helper "current_task_under_cgroup" Ret.integer Arg.const_shared_ptr Arg.anything Arg.dontcare
      Arg.dontcare Arg.dontcare false

abbrev pub skb_change_tail_proto : FuncProto
skb_change_tail_proto =
    helper "skb_change_tail" Ret.integer Arg.ptr_to_ctx Arg.anything Arg.anything Arg.dontcare
      Arg.dontcare false

abbrev pub skb_pull_data_proto : FuncProto
skb_pull_data_proto =
    helper "skb_pull_data" Ret.integer Arg.ptr_to_ctx Arg.anything Arg.dontcare Arg.dontcare
      Arg.dontcare false

abbrev pub csum_update_proto : FuncProto
csum_update_proto =
    helper "csum_update" Ret.integer Arg.ptr_to_ctx Arg.anything Arg.dontcare Arg.dontcare
      Arg.dontcare false
