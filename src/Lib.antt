-- ===== src/Lib.antt =====
-- A model of the core of the USP agent: its STOMP message transfer protocol, the object instances,
-- transactions, timers and notification retries of its data model thread, and the lists, text and
-- vector utilities that they share.
--
-- The parts and how they interact. The transport thread calls STOMP_UpdateAllSockSet and
-- STOMP_ProcessAllSocketActivity of src/core/stomp.c in turn; the data model thread queues
-- records, enables, disables and schedules connections. Each call holds one mutex, so the model
-- takes the calls as one sequence (Stomp.Calls). Bytes from the socket go to
-- ReceiveStompMessageInner, which finds whole frames in the receive buffer and hands their bodies
-- to the data model thread as events; records to be sent wait in a queue per connection until
-- TransmitStompMessage has sent the whole of their frame. The data model's arguments go through
-- src/core/kv_vector.c, which uses src/core/str_vector.c and the schema forms of
-- src/core/text_utils.c. In the data model thread src/core/data_model.c registers the nodes of the
-- schema, finds the node and the instance numbers of a path, and changes the instances
-- (src/core/dm_inst_vector.c) within a transaction (src/core/dm_trans.c), whose journal the commit
-- reads to call the notify functions and the abort reads to take the changes back;
-- src/core/sync_timer.c calls what is due, and src/core/subs_retry.c is one of those, which sends
-- notifications again.
--
-- The files. Common and Result hold shared names, byte strings, lists over native numbers and the
-- results of functions: a value, a USP error code, or a stop of the process by USP_ASSERT or a
-- trap. Text (Number, Hex, Split, Path) is src/core/text_utils.c; Vector.IntVector,
-- Vector.StrVector, Vector.KvVector and Vector.ExprVector are src/core/int_vector.c,
-- src/core/str_vector.c, src/core/kv_vector.c and src/core/expr_vector.c. Stomp.Types is the state
-- of src/core/stomp.h and src/core/stomp.c; Stomp.RxBuf the receive buffer and its framing;
-- Stomp.Frame the frames sent; Stomp.Connection the start, the stop and the failure of a
-- connection; Stomp.Receive the handling of received bytes; Stomp.Transmit the sending and the
-- socket loop of one connection; Stomp.Table the table of connections, its status and its rounds;
-- Stomp.Calls the sequences of calls. Dllist is src/core/dllist.c; DataModel.Instances
-- src/core/dm_inst_vector.c; DataModel.Paths, DataModel.Registry, DataModel.Access and
-- DataModel.Objects (with Deletion) src/core/data_model.c; DataModel.Trans src/core/dm_trans.c,
-- with the transactions of src/core/database.c and two parts of src/core/data_model.c; Timer
-- src/core/sync_timer.c; SubsRetry src/core/subs_retry.c and RETRY_WAIT_Calculate of
-- src/core/retry_wait.c. Each function has the name of its C function in small letters. The other
-- files hold theorems: Stomp.Invariant, Stomp.Progress, Stomp.Delivery and its child, Stomp.Retry,
-- Stomp.Handshake, Stomp.Upkeep, Stomp.Frame.Layout, Stomp.Frame.Escape, Stomp.RxBuf.Framing,
-- Stomp.Table.Queueing, Text.Hex.RoundTrip, Text.Split.Trim, Text.Split.Pieces, Text.Path.Schema,
-- Vector.StrVector.Order and the children of Vector.KvVector, Vector.ExprVector, Dllist,
-- DataModel.Instances, DataModel.Paths, DataModel.Registry, DataModel.Access, DataModel.Objects,
-- DataModel.Trans, Timer and SubsRetry. Tests holds runs on concrete inputs.
--
-- Correspondence. A struct is a record and a pointer that may be NULL, or a number that may be
-- INVALID, is an option. A string is the list of its bytes. A function that changes a struct
-- returns the new one. What a call reads from outside is a parameter: strtoul, sscanf, the clock,
-- rand_r, the floating-point range of the retry time, the outcome of a connection attempt, and
-- what the socket calls report; SQLite, the vendor's call-backs and the notify functions of the
-- data model; atoi; pow. The links of lists stand in a memory, a function from item numbers; a
-- registered node is a number and NULL is 0. A retry entry that is marked for deletion is `none`.
-- The conversions between int and unsigned that the source makes are written out at 32 bits, also
-- that of a difference of times to int. The number of a new instance behind INT_MAX, which overflows
-- in C, and a schema path behind the end of its buffer stop the model. What is allocated beyond the
-- bytes received, and the sum of two lengths, are not bounded.
--
-- Fuel. The loop over received frames has one round more than there are bytes in the buffer, which
-- is enough, as each round removes at least one. The digits of a number are written with the
-- number itself as the bound on the rounds. The loop of TEXT_UTILS_SplitString has one round more
-- than the text has bytes. SYNC_TIMER_Execute has one round more than there are timers, which is
-- enough for call-backs that add none. The recursion of DM_TRANS_Commit has one round more than
-- there are ranks of operations, where each operation's notify function makes only operations of a
-- lower rank. The recursion of DeleteChildParams has one level more than there are registered
-- nodes, as a child is registered after its parent.
--
-- Not modelled: the SSL branches of the socket calls, the polling of network interfaces, the
-- conversions of Booleans, enumerations and dates, the native form of parameter values, logging
-- and memory management, and the rest of the agent: the values of parameters, the path resolver,
-- the message handlers, CoAP, bulk data and the command line, which need the generated protobuf
-- code, SQLite and libcoap.
mod Common
pub mod Result
pub mod Text
pub mod Vector
pub mod Dllist
pub mod DataModel
pub mod Timer
pub mod SubsRetry
pub mod Stomp
mod Tests
