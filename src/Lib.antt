-- ===== src/Lib.antt =====
-- Verification of the C code of the repository: the inline functions and macros of the Fluent Bit
-- headers below agents/Fluentbit/fluentbit/include, from which the paths here start.
--
-- Parts, and the files that model them (each file's children hold its theorems, its Tests their
-- instances and runs of the code):
--   MkList        monkey/mk_core/mk_list.h: the intrusive lists mk_list_*, over a store of nodes
--   BucketQueue   fluent-bit/flb_bucket_queue.h: the priority queue flb_bucket_queue_*, whose
--                 buckets are lists of MkList in one array of nodes
--   EventLoop     fluent-bit/flb_event_loop.h: the events that wait, served from the bucket queue,
--                 the events of monkey/mk_core/mk_event.h, and the loop over them
--   Plugins       fluent-bit/flb_plugins.h: the registration of plugins in five lists of MkList
--   Coro          fluent-bit/flb_coro.h and flb_time_utils.h: coroutines, and how they sleep
--   Kqueue, Backends   monkey/mk_core/mk_event_kqueue.h and mk_event_epoll.h, _select.h, _libevent.h:
--                 the events that a backend reports
--   Task          fluent-bit/flb_task.h and flb_bits.h: packed results, users and routes of a task;
--                 Task.Unordered has the routes as a set, a quotient of the lists,
--                 Task.Answers what is answered after any changes
--   Output        fluent-bit/flb_output.h: how a flush is made, started and left, over the tasks
--   Input         fluent-bit/flb_input.h: the collection of an input as a coroutine
--   Stream        fluent-bit/flb_stream.h: flags and thread safety of a stream in a list of MkList
--   Encoder       fluent-bit/flb_log_event_encoder_*.h: operations on the three fields of an event,
--                 and the arguments of variadic calls (Values, Calls)
--   Subnet        monkey/mk_core/mk_macros.h: sub-nets, over an interface for htonl that Bytes fills
--   Langinfo, Kernel, Lua, BitMasks   fluent-bit/flb_langinfo.h, flb_kernel.h, flb_lua.h, flb_bits.h
--   Utf8, Str, Time, Iov   fluent-bit/flb_utf8.h, flb_str.h, flb_time.h, monkey/mk_core/mk_iov.h
--   ConfigMap, Uri, ThreadChannel   fluent-bit/flb_config_map.h, flb_aws_credentials.h, flb_filter.h,
--                 flb_custom.h and flb_processor.h, flb_uri.h, monkey/mk_core/mk_thread_channel.h
--   Memory, Sds, Bytes, Log, Router   fluent-bit/flb_mem.h and monkey/mk_core/mk_memory.h,
--                 fluent-bit/flb_sds.h, flb_byteswap.h, flb_log.h, flb_router.h; Log.Plugins the log
--                 macros of flb_input_plugin.h and of the four other headers of that kind,
--                 Log.Macros those of flb_log.h
--   Base          names of the libraries, Boolean tests, lists, binary digits, programs on a state
--
-- Names are those of the source without the prefixes mk_list_, flb_bucket_queue_, flb_task_,
-- flb_stream_, flb_event_ and flb_log_event_encoder_; elsewhere without flb_ or mk_. `load` is
-- flb_event_load_bucket_queue. Inner loops have names of their own. A record has the fields of the struct that the
-- modelled code reads or writes. `int` counters are natural numbers or patterns of 32 digits, as
-- the comment at the record says; `size_t` arithmetic is modulo 2 ^ 64. A pointer is a number.
-- An access that C leaves undefined (through NULL, outside an array, a second free) is `none`.
--
-- Bounds: the loops over a list run on fuel, and more fuel than entries is enough; the search for
-- the first bucket with an entry has as much as there are buckets, and one more. A bucket queue is
-- made for up to 2 ^ 60 - 1 priorities, since its array has 16 bytes for each. The parts of a
-- packed result have 4, 14 and 14 digits. The engine's loop runs on fuel, and more than its limit is
-- enough; unregistration runs on fuel, and more than entries in any list is enough: 89 for 88 plugins. The queue's own struct is a value beside the store.
--
-- Code outside the headers is a parameter or an answer of the environment: malloc, the processor,
-- the plugins, libco, what a round of the engine finds, the decoders and encoders of metrics and traces, coroutines, mutexes, and what the fields
-- and the append functions of the log event encoder do. In Output the lists of flushes are the lists of their entries, and a ledger counts
-- what is held. The numbers of type double are a parameter with their conversions. Not modelled:
-- the printing of logs, the remaining headers with declarations only, the LuaJIT
-- headers, and the repository's scripts and configurations, which are not C.
pub mod Backends
pub mod Base
pub mod BitMasks
pub mod BucketQueue
pub mod Bytes
pub mod ConfigMap
pub mod Coro
pub mod Encoder
pub mod EventLoop
pub mod Input
pub mod Iov
pub mod Kernel
pub mod Kqueue
pub mod Langinfo
pub mod Log
pub mod Lua
pub mod Memory
pub mod MkList
pub mod Output
pub mod Plugins
pub mod Router
pub mod Sds
pub mod Str
pub mod Stream
pub mod Subnet
pub mod Task
pub mod ThreadChannel
pub mod Time
pub mod Uri
pub mod Utf8
