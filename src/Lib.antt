-- ===== src/Lib.antt =====
-- Verification of the host-side logic of Resonantia, a voice conversion engine in C++20 and CUDA with a
-- web service and command-line tools round it.
--
-- Parts and files. Each modelled function keeps its name; paths are from the repository's root.
--   Safetensors    src/io/safetensors.cpp, include/voxmutatio/io/safetensors.h. Model weights are
--                  untrusted files. Scan and Skip are the JSON scanner (parse_string, parse_uint64,
--                  skip_value), Tensor is parse_tensor, Header is parse_header with its partition of
--                  the data section, Loader is SafetensorsLoader with load, load_snapshot and data.
--   Http           tools/web/http_transport.cpp and http_transport.h, the server of vc_serve. Auth is
--                  the token, Request is read_request with the shared count of body bytes, Server the
--                  accepting thread and the connection threads, Range is send_audio_file, Parameters
--                  the headers of parts and the boundary, Multipart parse_multipart and request_parts.
--   Tasks          tools/web/task_store.cpp and task_store.h, the records that the web service keeps.
--                  Codec is encode and decode, Store is TaskStore with its compare and swap. Storage is
--                  tools/web/task_storage.cpp: the bytes that tasks occupy, and the removal of copies that
--                  a finished task no longer needs.
--   Web            tools/web/web_service.cpp and web_service.h, the one job that the service runs. Job has
--                  JobState with finish and finish_training, Audio finish_audio_task, Reserve reserve_job,
--                  Resume the resumption of a task, the storage guard and the control channel, Control
--                  progress, pause and cancellation. Calls is any sequence of them on one Service, which
--                  holds the job and the store of Tasks; Owner is about such sequences, Durable and Ended
--                  about the record that the end of a job leaves.
--   Operations     tools/app_support/progress_protocol.h (Progress) and training_cancel.h and
--                  training_cancel.cpp (Cancel): how the service follows and stops the commands that
--                  it starts; operation_checkpoint.h (Identity): the digest that names an operation.
--   Checkpoint     src/io/block_checkpoint.cpp, include/voxmutatio/io/block_checkpoint.h: blocks of floats
--                  in a directory, so that a long operation can be resumed. Session is load, save and
--                  boundary, Open the constructor and stored_identity, Entries the listing. Spec is what a
--                  client is promised, a map of blocks that are written once; Refinement, Scan and Recovery
--                  relate the two.
--   Directory      what stands under the names of a directory, for Tasks and Checkpoint.
--   Digest         include/voxmutatio/core/sha256.h, the streaming digest of caches and checkpoints, and
--                  include/voxmutatio/io/file_digest.h (File), the digest of a file.
--   Separation     src/separation/sep_registry.cpp: which separation models are installed.
--   Prelude, Outcome, System: shared lists, byte strings, numbers and their digits; the result of a
--                  fallible scanner; the answers of system calls.
--
-- How state and code correspond. A text or file is the list of its bytes and a cursor is the list of
-- the bytes that are left. A bool with an output argument is Outcome: found, refused, or spent where the
-- fuel of a loop has run out; an exception is refused as well. A system call is an argument of the model:
-- Attempt lists the interruptions in front of its answer, a kernel or a directory is a record of such
-- answers. Threads and processes (Http.Server, Operations.Cancel) are relations whose steps are the atomic
-- operations and the calls under a mutex; in Web they are the calls in the order in which they take it.
-- Http.Request sees the socket as the pieces that arrive, where an empty piece is a failed or timed-out
-- receive. In Tasks.Store the directory is a list of names with what stands under them, and Disk says what
-- becomes of a write: all of it, nothing, or a rename with a failure behind it. In Checkpoint.Recovery a
-- process can also stop in a publication, which leaves the directory as it is between two of its system
-- calls.
--
-- Bounds and fuel. Numbers are natural numbers; where the code has size_t or uint64_t the tests against
-- the largest value are the code's own. Loops over text recurse on the text. Others have fuel: the number
-- of bytes left for the scanners, the nesting limit for skip_value, the size limit of the head and the
-- declared length for read_request, the length of the range for send_audio_file, the length of the body for
-- parse_multipart and for the parameters of a header.
--
-- Not modelled: the CUDA kernels and all floating-point work (encoders, pitch estimators, synthesizer,
-- separation, training, index search), the routes of the web service, audio files and
-- the pipeline's windows, the command-line applications, the text of fixed responses, deadlines, and the
-- release of descriptors and mappings by scoped owners.
pub mod Prelude
pub mod Outcome
pub mod System
pub mod Directory
pub mod Safetensors
pub mod Http
pub mod Tasks
pub mod Web
pub mod Operations
pub mod Separation
pub mod Digest
pub mod Checkpoint
