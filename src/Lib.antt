-- ===== src/Lib.antt =====
-- The iTrustee TrustZone driver: parts of the kernel module that hands commands to the TEE.
--
-- Parts and files.
--   Mailbox: the pool of pages shared with the TEE, a buddy allocator (core/mailbox_mempool.c).
--     Mailbox.antt has the zone and its operations under the functions' own names; below it, Inv says
--     what a sound zone is (Blocks: how the pool is cut; Areas: what is on the free lists; Held: the
--     same while a block is being freed), Alloc and Grant follow `mailbox_alloc`, Free and Drop
--     `mailbox_free`, Contract states both for callers, History follows a whole run, Twice a second
--     free of the same address and the mark that is to show it, Copy `mailbox_copy_alloc`.
--   Smc: the queue of commands (core/smc_smp.c, core/smc_smp.h). Cmd.antt is `struct tc_ns_smc_cmd`,
--     Slots.antt the bitmaps and the functions on them, Slots/Contract what
--     `occupy_free_smc_in_entry` gives, Slots/Scan how it looks for a slot, Slots/Lifecycle the
--     interleavings of CAs and TEE, Slots/Resend a slot used again, Timeout.antt the steps in which a
--     CA waits. Pending.antt has the list of waiting threads, with Counts for the users of an entry,
--     Wakeup for the waking of a CA and Broadcast for that of all. Send.antt is `smp_smc_send`, the
--     call into the TEE; Send/Wait the sleep for a pending answer, Send/Round one turn of the loop of
--     `smp_smc_send_func`, Send/Func the whole function, Send/Resume what the TEE is asked for,
--     Send/Held who has the slot in the course of the loop. It stands on Slots and Pending.
--   Agent: the agents that serve the TEE (core/agent.c, core/agent.h). Agent.antt has an agent's data
--     and the list of agents, Access who may register one, Work the exchange of an event with the TEE,
--     Register the registration and its undoing, Kernel the agents of the kernel and their threads.
--     An agent's buffer comes from Mailbox; Mailbox/Base says that the pool stays where it is.
--   Auth: the time stamps of a token and the sums and scrambling of a command
--     (auth/security_auth_enhance.c).
--   Param: the types of an operation's parameters and their checks (tc_ns_client.h, core/gp_ops.c).
--   Client: what core/teek_client_api.c checks of a kernel client's operation, and how it encodes it.
--   ClientCall: `tc_client_call` of core/gp_ops.c, how one operation is brought to the TEE and back.
--     ClientCall.antt has the operation and what the call works on, Alloc its encoding into memory of
--     the pool, Update what is brought back to the client, Command the command that carries it, Run the
--     whole call. Slots, Built, Freed, Inited, Quiet and Balance follow who holds which block of the
--     pool and which shared memory; Pool says that the zone of Mailbox is such a pool. Encoded is about
--     what the TEE is given, Copies about the copies to the client. It stands on Mailbox, Param, Auth
--     and Smc.
--   Session: from core/session_manager.c, Image.antt, how the image of a TA is sent in frames, with
--     Frames for what the frames are and Total for the case that nothing fails, and Services.antt, the
--     services that the processes use, with Refs for their reference counts.
--   Log: how a reader takes the TEE's log items out of their buffer (tlogger/tlogger.c). Items says what
--     `get_next_log_item` finds, Copied what `parse_log_item` copies, Read what a read gives when
--     the TEE leaves the buffer alone, Room what it gives in any case.
--   Base: shared notation, lists as `struct list_head`, arrays, powers of two; Xor the bits of a sum,
--     Bind the chains of results that may be missing.
--
-- How state is modelled. A page is its index and a pointer into the pool a page number. A list of
-- nodes is the list of the nodes' indices; `list_del` takes a node off whatever list holds it, and
-- `list_add_tail` is of a node that is on none. A part under a lock is one function; where the code
-- releases the lock and takes it again, the parts are separate functions, and Slots/Lifecycle lets
-- other CAs and the TEE act between them. A C array or a bitmap is a function of its index. Numbers
-- are natural numbers; where the code's arithmetic can wrap, the wrap is written out.
--
-- Parameters. The kernel's `get_order`, `ALIGN`, `msecs_to_jiffies`, `access_ok` and `get_user`, the
-- outcomes of `memset_s`, `memcpy_s` and the copying of a frame, what the TEE answers to a frame and
-- which blocks the pool gives for an image. `update_timestamp` and `update_chksum` are arguments of
-- Slots; Auth defines them. What the TEE and the other threads do between two steps of one thread is
-- a list of worlds, one for each return from the TEE, and a list of the endings of each wait; what
-- `kzalloc`, the mapping of a buffer for a process and the start of a kernel thread give is an
-- argument, and so are who the calling process is and which session `tc_find_session_by_uuid` finds.
-- For ClientCall, the results of `copy_from_user`, `copy_to_user`, `memcpy_s`, `virt_addr_valid`,
-- `virt_to_phys` and of the encryption and token calls are arguments, and so is what the TEE writes to
-- the operation, at each return and between two readings of a size; the call runs alone at the pool.
-- What the TEE writes to the log during a read is in the readings: what the code reads twice, of the
-- flag and of an item's length, is an argument for each time.
-- The build is the default one: CONFIG_AUTH_ENHANCE on, CONFIG_BIG_SESSION 1000, no TA affinity,
-- pages of 4 KiB.
--
-- Bounds. The loop of `mailbox_free` runs as many rounds as there are orders above the block, the
-- scan of `mailbox_alloc` as many as there are orders from the wanted one on; the search for a slot
-- tries again 25001 times, as the code does. The loop that halves the size of an image's block has 32
-- rounds, one for each bit of its `unsigned int`. `proc_ta_pending` has as many rounds as its array has
-- steps. The loops over the parameters have one round for each. `handle_ta_pending` takes a list of the
-- TEE's returns, and has no result when the list ends and no one wakes the thread. The loop of
-- `smp_smc_send_func` runs as long as it is told what the TEE and the others do, and has not returned
-- when the list ends. The search for a log item has a round for each byte of its scope, the parse one
-- more than the bytes that the user has room for: each round takes some of them.
--
-- Not modelled: the shadow threads and the command monitor of core/smc_smp.c and core/cmdmonitor.c,
-- the opening and closing of sessions, the log device but for its reading, the encryption of
-- session data, how shared memory is allocated and mapped, the character device, the SPI
-- notifications, power management and glue.
pub mod Base
pub mod Mailbox
pub mod Smc
pub mod Param
pub mod Client
pub mod Session
pub mod Agent
pub mod Auth
pub mod ClientCall
pub mod Log
