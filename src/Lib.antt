-- ===== src/Lib.antt =====
-- andiodine: the iodine IP-over-DNS tunnel, in jni/iodine/src.
--
-- The client puts IP packets, compressed and cut into chunks, into the host names of DNS queries;
-- the server answers each query with a chunk of what waits for that client. Only ASCII letters,
-- digits and little else survive in names, so a chunk goes through one of three text codecs; and a
-- DNS relay repeats and reorders queries, so the server keeps, for every user, the packet that is
-- being sent with the packets behind it, the answers it sent last and the queries it saw last.
--
-- The files and the code they model:
--   Codec, Codec/Base32, Codec/Base64, Codec/Base128: base32.c, base64.c and base128.c. The loop of
--     an encoder with its `if (iout >= *buflen || iin >= size) break` is `encode_loop`, that of a
--     decoder is `decode_loop`; `encode_step` and `decode_step` are the code between two such tests,
--     by the phase in a block. `Encoded` holds the text and the bytes that *buflen left over.
--     Codec/Laws, Codec/Sync, Codec/Capacity and Codec/Text hold what the three share.
--   User: `struct packet` and `struct query` of common.h and `struct tun_user` of user.h. Buffers
--     are lists of bytes: only what was written into them is kept. Two parallel arrays that are
--     always written together are one list of pairs.
--   Server/Outpacket: start_new_outpacket, save_to_outpacketq, get_from_outpacketq and
--     process_downstream_ack of iodined.c. Queue and Ack relate them to a queue of packets.
--   Server/DnsCache: save_to_dnscache and answer_from_dnscache of iodined.c.
--   Server/QueryMemory: save_to_qmem, save_to_qmem_pingordata, answer_from_qmem and
--     answer_from_qmem_data of iodined.c. Seen views a memory as the list of the queries seen last,
--     Detection says when a duplicate is found.
--   Server/SendChunk: send_chunk_or_dataless of iodined.c, which calls the three modules above. The
--     query that it answers is named by `QueryAt`, since every caller passes a pointer to one of the
--     two queries of the user.
--   Server/Upstream: the header of a data query, as send_chunk of client.c writes it and
--     handle_null_request of iodined.c reads it, and the part of that handler that puts the packet
--     together. Header and Reassembly hold the two results.
--   Server/Waiting: what handle_null_request does with the queries that wait, in its data and ping
--     branches: duplicates are remembered, earlier queries answered, the new one kept.
--   Server/Users: the searches and changes of the user table in user.c. Init is init_users, and
--     Addresses is about the addresses it gives.
--   Dns/Numbers: putbyte, putshort, putlong, putdata, readshort, readlong and readdata of read.c.
--   Dns/TxtBin: puttxtbin and readtxtbin of read.c.
--   Dns/Names and Dns/Encode: putname of read.c, and dns_encode of dns.c for QR_QUERY.
--   Hostname: encoding.c, with `struct encoder` of encoding.h as a record. WithDots is the text with
--     its dots; Dotify and Undotify relate the loops over the buffer to it; Encoders holds the tables
--     of the three codecs.
--   Server/Ping: the ack in a ping, as handle_null_request of iodined.c reads it.
--   Client: the variables of client.c as a record. Client/Query is send_query with what it calls to
--     switch lazy mode off; Client/Send is send_raw, send_packet, send_chunk and send_ping;
--     Client/Tunnel is tunnel_tun and tunnel_dns, of which Client/Downstream is the part that puts a
--     packet together. Frame holds what sending a query leaves as it is, and
--     Arrived what a reply does to the packet being received. zlib's compress2 and
--     uncompress are parameters. What is sent and written is a list of `Event`.
--   Tunnel/Downstream: the server and the client together, in rounds of a query that is answered, a
--     reply that is taken and a ping that acknowledges it.
--   Login: login_calculate of login.c, with MD5 as a parameter.
--   Server/Request: the handlers of iodined.c, on the modules above. The variables of the options
--     are a `Config`, and what a handler does is a list of `Effect`. Login, Options and Queries are
--     the branches of handle_null_request, and Null is the function itself, which chooses one by the
--     `Command` that the first char stands for. Traffic is tunnel_tun and handle_full_packet, Raw is
--     raw_decode with its handlers, and Tunnel is tunnel_dns behind read_dns. Guard, LoggedIn,
--     RawGuard and Fresh say who can do what (Known spells out the tests on the sender), and what a
--     new user gets; Arrival is about a packet from the tun device.
--   Server/Loop: a round of the loop of tunnel, with what came from the tun device and from the DNS
--     socket; Realsoon is about the queries that are to be answered soon.
--   Server/Answer: write_dns_nameenc and the TXT answers of write_dns, of iodined.c. Names and Txt
--     relate them to Client/Namedec, which is dns_namedec of client.c.
--   FwQuery: fw_query.c.
--   Seqno: recent_seqno of common.c. Topdomain: check_topdomain of common.c, with its error messages
--     as `TopdomainError`.
--   Common: lists, Boolean tests, masks and shifts, and two views of a fixed array: RingLog, where
--     the slot behind the last one is overwritten next, and RingQueue, where entries are added at
--     one end and taken at the other. Reversed is a buffer cut at a
--     position. Fields is C's `|` of disjoint fields, and Search the loop that
--     stops at the first match.
--
-- Each function takes the state it reads and returns what it writes. What is written to the network
-- is a list of `Reply`, one for each call of write_dns. A char is its unsigned value, an int that the
-- code never makes negative is a natural number, and -1 as a result is `none`. `time(NULL)` is an
-- argument, the same throughout one call.
--
-- Bounds: the codecs recurse on *buflen, which each round of the loops lowers by one, so no fuel is
-- assumed; the other loops are as long as the array they run over. The array lengths and buffer sizes
-- are those of the headers.
--
-- zlib's compress2 and uncompress, MD5, rand and the encoder of base64u.c are parameters of the
-- handlers.
--
-- Inputs of the client that it waits for inside a call, in handshake_lazyoff, are the field `answers`
-- of its state. A `char` that counts fragments is not wrapped around in the client.
--
-- Not modelled: in iodined.c, the loop of write_dns over several names (MX and SRV), the answers
-- to NS and A queries, the forwarding of queries, read_dns, and in the loop of tunnel the time for
-- `select` and the idle limit; in client.c the handshake, read_dns_withq and the loop
-- client_tunnel_cb; the answers and dns_decode in dns.c, and the rest of read.c and common.c; MD5
-- in md5.c, which is third-party code; base64u.c, which is generated; sockets, devices, options
-- and the Android application, which are input and output.
pub mod Common
pub mod Codec
pub mod User
pub mod Server
pub mod Dns
pub mod FwQuery
pub mod Seqno
pub mod Topdomain
pub mod Login
pub mod Hostname
pub mod Client
pub mod Tunnel
