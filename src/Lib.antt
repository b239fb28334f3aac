-- ===== src/Lib.antt =====
-- Models of the core of chrony, an NTP client and server in C, with the theorems that make them
-- correct.
--
-- The program is one process around an event loop. sched.c calls the handlers of sockets and of
-- timeouts. An NTP request that ntp_io.c reads goes to ntp_core.c, which asks addrfilt.c whether
-- the address is allowed, clientlog.c whether a response is due, and keys.c to check and to
-- generate authentication codes; a response goes by ntp_sources.c to the source that has its
-- address. All of them use util.c for times and addresses.
--
-- Prelude (Prelude.antt and its children): shared names, Boolean tests, lists over native
-- numbers, integers, powers of two, and lists of optional slots for hash tables.
--
-- Addressing (Addressing.antt): addressing.h, and UTI_CompareIPs and UTI_IPToHash of util.c.
--
-- AddrFilt (AddrFilt.antt and its children): addrfilt.c. TableNode, open_node, close_node,
-- set_subnet, check_ip_in_node and is_any_allowed have the names of the source; the loops over
-- levels are recursions on the number of levels, and an index that the C code computes from an
-- address is a read that may fail, so that reads inside the address are proved. Children: Bounds
-- (depth and reads), Prefix, Override (what a rule changes), Rules (the exported calls), Any.
--
-- NtpSources (NtpSources.antt and its children): the hash table of ntp_sources.c. find_slot,
-- rehash_records, add_source, remove_source and replace_source return none for a failed
-- assertion. The hash with its seed and the calls of ntp_core.c are parameters. Children: Probe
-- (the probes of one look-up differ), Find, Rehash, Table, Remove, Replace, Clash; PoolIndex (the
-- pools that records name); Receive (NSR_ProcessRx, NSR_ProcessTx and the sources of a pool),
-- Resolve (name_resolve_handler, resolve_sources, NSR_ResolveSources, NSR_AddSourceByName,
-- NSR_HandleBadSource, NSR_RefreshAddresses, with the answers of the resolver as arguments) and
-- Control (the calls for one address or all). A call of ntp_core.c changes the instance it is for
-- and no other.
--
-- Time (Time.antt and its children): the arithmetic of util.c on struct timespec, struct timeval
-- and NTP timestamps.
--
-- Sched (Sched.antt and its children): the timer queue of sched.c (SCH_AddTimeout,
-- SCH_AddTimeoutInClass, SCH_RemoveTimeout); children Ids, Queue, Timeouts and Separation hold
-- the proofs, Dispatch models dispatch_timeouts, with the time and the handlers as parameters,
-- Load counts the handlers that are run until a time, and Files has the registration of file
-- handlers.
--
-- ClientLog (ClientLog.antt and its children): set_bucket_params, update_record,
-- limit_response_random and the decisions on responses of clientlog.c. Children: Bucket, Rate,
-- Response (the decisions on responses) and Limit, which holds their laws.
--
-- Keys (Keys.antt and its children): keys.c. decode_password, bsearch, get_key_by_id and its
-- cache, KEY_Reload, the generation and check of codes. Children: Lookup, Cache, Auth.
--
-- NtpExt (NtpExt.antt and its children): NEF_AddField and NEF_ParseField of ntp_ext.c on the
-- bytes of a packet; the round trip and the bounds are in Laws.
--
-- NtsKe (NtsKe.antt and its children): nts_ke.c. get_record, add_record, check_message_format,
-- prepare_request, process_request and process_response work on the list of the bytes of a
-- message. Children: Records (the bytes of records), Format and Check (the format of messages),
-- Negotiation with Sending and Handshake (requests, responses, and one from end to end), Cookies
-- with Rotation (generate_server_key, NKE_GenerateCookie, NKE_DecodeCookie), Session with States,
-- Life and Accepting (update_state, read_write_socket, accept_connection; a slot of
-- server_instances may hold a freed pointer). The cipher is a parameter; the answers of sockets
-- and gnutls, and the random bytes, are arguments.
--
-- NtsNtp (NtsNtp.antt and its children): nts_ntp.c. NTS_CheckRequestAuth and
-- NTS_GenerateResponseAuth are in NtsNtp, the functions of a client in Client. A function returns
-- 0 (rejected), goes on, or is broken: it fails an assertion, reads outside its buffer or uses an
-- undefined value. Children: Fields (the loop over the fields of a packet), Auth (the field that
-- authenticates), Requests and Responses (the bytes that are sent and what the server makes of
-- them), Exchange (from a request to its response), Total; of Client: Sending, Receiving,
-- Identity (the unique ID), Total, Stock and Filling (the ring of cookies). NtpExt/Chain has the
-- laws of packets whose first bytes are known.
--
-- Array (Array.antt and its children): array.c, with the capacity in Growth. The other files take
-- an array as a list of its elements.
--
-- Numbers. Unsigned integers of the code are natural numbers with the wrap-around written out; a
-- time_t, a long and an int are unbounded integers. The code keeps delays of timeouts as doubles:
-- they are whole numbers of nanoseconds here, so that rounding is not modelled.
--
-- Bounds and fuel. The search for a free timeout ID has as many tries as timeouts are queued, and
-- two, which is enough for fewer than 2^32 - 1 timeouts. Dispatching has a round for each handler
-- that may run until a time that the clock does not reach meanwhile, and one. The loop for the
-- size of the table of sources has a round for each source, and one. The table is proved right up
-- to 2^16 sources, well before its 32-bit arithmetic wraps. The binary search has a round for
-- each key, and one. The capacity of an array is doubled in 33 rounds at most. The loops over the
-- records of an NTS-KE message have a round for each byte, enough as a record takes at least
-- four; those over the fields of a packet have one for each byte, and one, enough as a field
-- takes at least 16.
--
-- Not modelled: input and output, floating point (clock control, statistics, source selection),
-- the resolver, TLS, the command and configuration languages, device and system drivers, the
-- record table of clientlog.c, and memory.
pub mod Prelude
pub mod Addressing
pub mod AddrFilt
pub mod NtpSources
pub mod Time
pub mod Sched
pub mod ClientLog
pub mod Keys
pub mod NtpExt
pub mod NtsKe
pub mod NtsNtp
pub mod Array
