-- ===== src/Lib.antt =====
-- Verification library of the IREE execution provider for ONNX Runtime (src/*.cc and src/*.h).
--
-- The plugin has these parts. The factory (src/iree_ep_factory.cc) enumerates the devices of IREE,
-- registers them with ORT, opens HAL devices on demand and creates execution providers, allocators
-- and the data transfer. An execution provider (src/iree_ep.cc) writes an ONNX graph as MLIR
-- (src/mlir_gen.cc), has it compiled by way of temporary files (src/temp_file.cc), and runs it. The
-- conversions between ORT and IREE are in src/iree_ort_utils.cc, the status conversion and the owning
-- pointers in src/iree_wrappers.h. ORT creates and deletes the factory by src/plugin_entry.cc.
--
-- Files:
-- - Common: the library names passed on, tests on numbers, lists, texts as lists of bytes, decimal
--   numbers with `std::stoul`, remainders, and the paths of `std::filesystem`.
-- - OrtUtils: the element type tables, byte sizes and shapes of src/iree_ort_utils.cc. Types,
--   ByteSize and Shapes have the proofs; Convert is `OrtTensorToIreeBufferView` and `IreeBufferViewToOrtTensor`.
-- - Wrappers: statuses, and `iree_status_to_ort_status` for `IreeStatusToOrtStatus`. Pointers is
--   `IreePtr` and Allocated is `IreeAllocatedPtr` (src/iree_wrappers.h), each over a map of variables,
--   with proofs in Laws; Totals is about sums over such a map. Pointers/Scopes is code that declares
--   such pointers, as its operations and its result, with blocks; Null, Settles and Leads say what it
--   leaves in them.
-- - TempFile: src/temp_file.cc over the set of existing paths, with its proofs in Laws.
-- - MlirGen: src/mlir_gen.cc. Names is `SanitizeName`, Hex is `HexEncode`, Stream is `Join` and
--   the loops that write separators, Graph is what the ORT wrappers answer, Types is the tensor
--   types with the proof that they print apart in Injective, Generator is `MlirGenerator` up to
--   `Generate`, with the texts that it writes in Pieces. Operands, Lines, Emission, Parameters,
--   Metadata and Mentions have the proofs. Program is the MLIR program of a graph as syntax with
--   its printer; its children are about the printed text (Collected, Printed), typing (Typing,
--   Valid, Typed), SSA names (Names, Distinct) and lost data (Unreadable). Archive is
--   `BuildParameterArchive` and `GenerateMlir`, with its proofs in Rounds (one entry), Keys (the
--   whole index) and Generated (the index of a graph that was written); Archive/Objects is the
--   same code with its owning pointers.
-- - Ep: Config is `IreeEp::Config` and `GenerateCompileFlags`; Flags has the proofs. Compile is
--   `CompileImpl` with `CompileToVmfb` (src/iree_compile.cc), Compile/Laws and Compile/Answers its
--   proofs, Compile/Files the same call with its temporary files, Compile/Objects the same call
--   with its owning pointers. Compute is `ComputeImpl` as a sequence of events, with proofs in
--   Balance (every path, over the pairs of Pairs), Steps and Success (the order on success, which
--   is in Order), Complete (when it succeeds) and Keeps (what it leaves of the factory). Callbacks
--   is the callbacks that do one thing.
-- - Plugin: the entry points of src/plugin_entry.cc, and the calls of ORT as a step relation over the
--   factory and the execution providers that ORT holds. Calls is about one call, Invariant about the
--   states that calls lead to.
-- - Factory: src/iree_ep_factory.cc. State is the members, Devices is `CreateIreeHwDevices`, Cache
--   is `GetDeviceForId`, Supported is `GetSupportedDevicesImpl`, CreateEp is `CreateEpImpl`,
--   CreateAllocator is `CreateAllocatorImpl` and `CreateDataTransferImpl`; each has its proofs in
--   a child module Laws; Keeps says what a call leaves of the factory, CreateEp/Complete exactly
--   when a call succeeds, over the tables of CreateEp/Tables. Lifetime is the constructor, the
--   getters and the destructor. Startup follows a device from its enumeration to an execution
--   provider.
-- - Allocator: src/iree_allocator.cc, the allocations of one `IreeAllocator`. Laws is about the
--   references, Live about the pointers that are allocated.
-- - DataTransfer: src/iree_data_transfer.cc over the device cache; Copies is about one copy, Laws
--   about the loop, Accepted about the copies that `CanCopyImpl` accepts, Bytes about the bytes of the
--   tensors.
-- - Tests: runs on concrete inputs.
--
-- State is passed explicitly: a method takes the object and returns the changed one. What ORT and
-- IREE answer is a parameter: the reports of the enumeration, the statuses of the ORT calls, and
-- the record `Runtime` with `iree_hal_create_device` and `GetKeyValue`, `Io` with the calls of the
-- parameter index, `Compiler` with the command and the session, and the status of a HAL transfer.
-- Logging is left out. Machine integers wrap explicitly (`size_t` at 2 ^ 64, `uint32_t` at 2 ^
-- 32). The only fuel is the digit count in `to_string`, which is the number itself plus one: a
-- division by ten makes a positive number smaller. The source is taken as it is compiled without
-- `assert`.
--
-- The parameter `Hal` has the calls on buffer views, `Kernel` those on the runtime call and the
-- kernel context. A view, a device and a buffer are handles. Calls are taken one
-- at a time: the source leaves the locking of the factory open.
--
-- Not modelled: `ReleaseStateImpl`, which does nothing; the callback tables that the constructors
-- fill; `IrpaFileOpenCallback`, one call of the io library; the Python package and the build.
pub mod Common
pub mod OrtUtils
pub mod MlirGen
pub mod Wrappers
pub mod Factory
pub mod DataTransfer
pub mod Allocator
pub mod TempFile
pub mod Ep
pub mod Plugin
pub mod Tests
