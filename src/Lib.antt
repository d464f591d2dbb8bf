-- ===== src/Lib.antt =====
-- The logic of the XRM input/output controller for ACQ400 (xrmIocApp/src), a set of EPICS port
-- drivers that pick samples by timed events out of buffers of raw data and publish them, and
-- that load thresholds into a permit DSP when an event asks for them.
--
-- How the parts work together. The receiver keeps the latest event tables (FMT) that arrive by
-- multicast. In every cycle the sample-on-event driver hands the current buffer, the sample
-- geometry and the lookup table to a strategy, which matches the events of a received table
-- against the lookup table, finds each event's sample by its White Rabbit time, and builds a
-- hold table; the monitor takes that table apart again. The proxy computes the sample geometry
-- and gives it to the others. The permit table maps events to thresholds, which the DSP's full
-- load writes into the threshold memory of the sites.
--
-- Which file models which part:
--   Structs: xrmIocApp/src/xrm_structs.h, tables as lists of rows, and a hold table as 32-bit
--     words in which a header takes eight; load_header and store_header are ht[row].
--   SamplePrams: xrmIocApp/src/SamplePrams.cpp.
--   WrTime: the timestamps of xrmIocApp/src/acq400_asyn_common.cpp.
--   Driver, Driver/RateLimit: xrmIocApp/src/acq400_asynPortDriver.cpp; what a driver tells the
--     asyn library is a list of effects.
--     Driver/Access has its other checked accesses, and csv2int() of
--     xrmIocApp/src/acq400_asyn_common.cpp.
--     Driver/Edit is the loop that edits the rows of a table, which two drivers have.
--   FmtBase: xrmIocApp/src/acq400_FMT_abc.cpp; FmtSim: xrmIocApp/src/acq400_FMT_sim.cpp, with the
--     tables that it sends in Stamps.
--   Receiver: xrmIocApp/src/acq400_FMT_rx.cpp; Ring is about the two deques of slots, History
--     about what clients see, Trigger about process_fmt(). Receiver/Task is task(), and Running
--     is about it.
--   PostMortem, PostMortem/Task: xrmIocApp/src/acq400_PM.cpp; Ring and Fresh are about the store of
--     buffers, Rows about the columns, Running about the task.
--   Soe/Strategy, Soe/Cycle: xrmIocApp/src/acq400_SOE_Strategy.cpp, the lookup and the three
--     strategies. Soe/Table and Soe/Selection say independently what table and which matches a
--     cycle is to give, and Soe/Lookup and Soe/Timing are about the code.
--   Soe/Edit, Soe/HoldColumns, Soe/Round, Soe/Round/Task: xrmIocApp/src/acq400_SOE.cpp, the lookup
--     table, the columns of the hold table, the parts of a cycle, and a round of task() with the
--     handler; Soe/Start is what task() does before its loop, Soe/Round/Cleared is about a cycle
--     as a whole, and Soe/Retry and Soe/Null about the strategy that tries again and the one
--     that does not look.
--   Monitor, Monitor/Formats: parse() and the formatters of xrmIocApp/src/xrm_ht_monitor.cpp;
--     Monitor/Json is the text of the JSON formatter, as pieces, with Json/Grammar, Values and
--     Output about it.
--     Monitor/Feed is its options and the loop of main(), and Feed/Updates about that loop.
--     Monitor/Dump is xrmIocApp/src/xrm_struct_support.cpp, which prints the same tables, and
--     Dump/Agreement says that both show the same.
--   Pvxs: xrmIocApp/src/pvxsWrapper.cpp, how the value on a line of pvxmonitor is read.
--   Permit, Permit/Caches, Permit/Peers: PermitDSP and the port drivers of
--     xrmIocApp/src/acq400_Permit.cpp;
--     Permit/Lut and Permit/Selection: xrmIocApp/src/acq400_PermitLut.cpp; Permit/Task: the tasks
--     of both; Mirror, Loading, EventSet and Columns are about them.
--   Proxy, Proxy/Cal, Proxy/Task: xrmIocApp/src/acq400_Proxy.cpp.
--   AnaTrg, AnaTrg/Dispatch: xrmIocApp/src/anatrg.cpp.
--   Inst: xrmIocApp/src/acq400_INST.cpp, the driver that runs a child process. Inst/Env is the
--     class EnvBuilder, Inst/Launch the launch of the child, Inst/Message what a message shows,
--     and Inst/Task the task and the handler; Env/Laws, Alive, Stages and Running are about
--     them.
--   Network: xrmIocApp/src/Multicast.{h,cpp} and the multicast factory of
--     xrmIocApp/src/acq400_FMT_abc.cpp. Kernel is the interface of the system calls and the code
--     that may end the process, Plan the calls of the set-up as a list, Reliable what a segment
--     that delivers does, and SetUp and Delivery what the objects do on it.
--   Prelude: shared names, tests, lists, deques, integers, memory, bits and texts; Returns is what code
--     that may fail promises.
-- The files named Examples hold tests and the theorems at concrete inputs.
--
-- Conventions. Numbers are native; 64-bit and 32-bit signed arithmetic wraps (s64, s32), and
-- unsigned fields are cut to their width. `none` is a failed assert, a trap, or an access out of
-- the bounds of an array or a table of the program; a raw buffer is memory without an end, so a
-- read behind its last sample gives what stands there. A task is a run over the rounds of its loop, whose inputs (the buffer or table that
-- arrives, RUNSTOP, the time) are a list. In Network the system calls are the fields of an
-- interface over an unknown state, and exit(1) is a value that keeps that state. The target is
-- 32-bit ARM, where sizeof(long) is 4. Fuel: scan_di has 32 steps, one for each bit of a word, as
-- have commit_bits and flush_bits; the retry loop has the five rounds of the source; parse has as
-- many as there are headers to read, and one more than there are matches is enough for a table
-- that the lookup built; a walk over an environment has one step more than it has entries, and %d
-- ten digits.
--
-- Not modelled: threads and locks (a handler or a round runs on its own), float arithmetic,
-- processes, files and the asyn, EPICS and pvxs libraries, whose answers are arguments;
-- the making of the port drivers, and what they print; xrmIocApp/src/acq400_HT_server.cpp, an
-- example of the pvxs library that is not compiled; the small tests and
-- main functions; xxxRecord.c, which is a template of EPICS, and the databases.
pub mod Prelude
pub mod WrTime
pub mod Driver
pub mod AnaTrg
pub mod Structs
pub mod SamplePrams
pub mod Receiver
pub mod Soe
pub mod Permit
pub mod Proxy
pub mod Monitor
pub mod PostMortem
pub mod FmtSim
pub mod FmtBase
pub mod Inst
pub mod Network
pub mod Pvxs
