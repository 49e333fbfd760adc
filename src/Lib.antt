-- ===== src/Lib.antt =====
-- A model of the front of PREVAIL, a verifier of eBPF programs, of its fixpoint iteration, and of
-- parts of its abstract domains, with proofs about them.
--
-- The program reads the slots of an eBPF program, decodes them into instructions (`unmarshal`),
-- makes a control-flow graph of the listing, puts before each instruction the assertions that it
-- needs, replaces conditional jumps by assumptions on both branches, merges chains of blocks
-- (`prepare_cfg`), and then interprets the graph abstractly; one of the domains that the
-- interpretation is made of is that of intervals, another one that of the bytes of the stack that are
-- not numbers; a map of cells says which ranges of the stack have a variable, and linear constraints
-- carry the conditions of the program to the domains. The encoder (`marshal`) turns a listing into
-- slots.
--
-- Modules, with the code each is about (paths from the root of the repository):
--   Base        lists, signed integers, machine words and bits that the other modules share.
--   Outcome     C++ exceptions, failed assertions and reads out of range as faults; the notes that
--               the decoder leaves.
--   Asm         src/asm_syntax.hpp: instructions, operands, assertions and labels.
--   Ebpf        src/linux_ebpf.hpp: the fields of a slot and the constants of its opcodes.
--   Helpers     src/gpl/spec_prototypes.hpp: the types of the prototypes of helper functions; Lower,
--               Upper and Table have the table of src/gpl/spec_prototypes.cpp, which the decoder
--               takes as an argument.
--   Unmarshal   src/asm_unmarshal.cpp: Alu, Memory, Jump (the functions that make one kind of
--               instruction) and Loop (`Unmarshaller::unmarshal`, and `unmarshal` around it); Quiet
--               holds proofs.
--   Marshal     src/asm_marshal.cpp: `MarshalVisitor`; Marshal/Program has the labels of a program.
--   RoundTrip   what is encodable, and proofs on the decoder behind the encoder.
--   Assertions  src/assertions.cpp: `AssertExtractor` and `explicate_assertions`; Erase, Complete
--               and Calls hold proofs.
--   Cfg         `basic_block_t` and `cfg_t` of src/crab/cfg.hpp; Simplify has `cfg_t::simplify`,
--               Symmetric, Contents, Length and Termination hold proofs.
--   AsmCfg      src/asm_cfg.cpp: `instruction_seq_to_cfg`, `to_nondet`, `reverse`, `prepare_cfg`;
--               Symmetric, Nondet, Reverse and Decoded hold proofs.
--   Wto         src/crab/wto.hpp: nestings, components and the table of nestings, with the visitor
--               `member_component_visitor` of src/crab/fwd_analyzer.cpp; Ordered says what a weak
--               topological order is, Nested holds proofs.
--   Fixpoint    src/crab/fwd_analyzer.cpp: the iterator over a domain that is an argument; Equations
--               says how its tables hang together, the other children hold proofs.
--   Linear      src/crab/linear_constraints.hpp: expressions; Constraints has the constraints, and
--               Syntax the operators of src/crab/dsl_syntax.hpp; the other children hold proofs.
--   Bitset      src/crab/bitset_domain.hpp; Sets and Ranges hold proofs.
--   Cells       `cell_t` and `offset_map_t` of src/crab/array_domain.hpp and
--               src/crab/array_domain.cpp; Scan has `get_overlap_cells`, Overlap and the children of
--               Scan hold proofs.
--   Thresholds  `thresholds_t` of src/crab/thresholds.cpp; Between and Sorted hold proofs.
--   Bound       `bound_t` of src/crab/interval.hpp; Order and Arith hold its laws.
--   Interval    `interval_t` of src/crab/interval.hpp; Divide and Bitwise have the operators of
--               src/crab/interval.cpp, the other children hold proofs.
--   Examples    concrete inputs for the theorems.
--
-- State. The decoder's notes are part of its outcome, which keeps them when it throws. A
-- `std::set` of labels and the map of the blocks of a graph are lists in ascending order, a
-- reference to a block is the block's label, and an operation on a graph gives the changed graph.
-- CRAB_ERROR, which ends the process, and a failed `assert` are the fault `assertion`; a read
-- outside a vector, or through an empty `std::optional`, is `out_of_range`. The tree of an offset map
-- is the list of its bindings in ascending order.
--
-- Numbers. Fields of a slot are natural numbers or signed integers, and every conversion to 16, 32
-- or 64 bits is written out. A `number_t` is a mathematical integer.
--
-- Fuel. `simplify` has fuel for as many rounds as the graph has blocks, and `fill_ones` for as many
-- rounds as its argument. `operator/` calls itself on arguments without 0, so three levels of calls
-- are enough: its divisor is split first, then its dividend. The two loops over a cycle of the
-- analysis have the fuel that the analysis is given, for each visit of the cycle; whether they end
-- depends on the domain, and a result without fuel stands for a loop that does not end.
--
-- Interfaces. The analysis takes its domain as a record of operations, `Domain`, of which nothing is
-- asked. A visit of an instruction also takes and gives the content of `global_array_map` of
-- src/crab/array_domain.cpp, which loads and stores change and all blocks share. The domain of the
-- program, in src/crab/ebpf_domain.hpp, is not modelled.
--
-- Not modelled: the algorithm that finds the weak topological order, the zones and the transfer
-- functions of the domain, which are larger than all of this, with the part of the array domain that
-- asks the zones; text, object files and the
-- kernel, which are input and output. Of src/crab/cfg.hpp the removal of unreachable blocks and the
-- reversed views, of src/asm_cfg.cpp the statistics, of src/crab/interval.hpp the widening with
-- thresholds, and of src/crab/linear_constraints.hpp hashing and printing are left out as well.

pub mod Base
pub mod Asm
pub mod Outcome
pub mod Ebpf
pub mod Helpers
pub mod Unmarshal
pub mod Marshal
pub mod RoundTrip
pub mod Bound
pub mod Interval
pub mod Assertions
pub mod Cfg
pub mod AsmCfg
pub mod Examples
pub mod Linear
pub mod Bitset
pub mod Wto
pub mod Fixpoint
pub mod Thresholds
pub mod Cells
