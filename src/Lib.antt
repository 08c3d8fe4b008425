-- ===== src/Lib.antt =====
-- This fork of crypto/tls and its disguise layer: application data cut into cells, padded,
-- scheduled, sent as TLS records, and put together again at the other end.
--
-- Parts, and the files that model them:
-- - Profile: disguise/profile/profile.go. A Profile is a record, a map the list of its entries in
--   the order in which Go ranges over it; GetProfile, GetNextPayloadLength, GetNextCellSize,
--   GetProfileType, selectTrafficType, updateLoad and the two Sample methods are functions of the
--   same words. What math/rand gives is an argument (LengthDraws, a number for rand.Intn).
-- - Framing: disguise/framing/framing.go. Framing/Codec has EncodeCell and DecodeCell,
--   Framing/Padding generatePadding, generateRandomOffset and generateCellID, Framing/Fragment
--   Fragment and CreateDummyCell. Framing/Reassembly is disguise/framing/reassembler.go.
--   Framing/Transfer joins the two.
-- - Scheduler: disguise/scheduler/scheduler.go, with Push and Pop of container/heap written out:
--   the queue is a list of items, and the pointer of an item is its place. Scheduler/View,
--   Scheduler/Order and Scheduler/Sift are about the heap, Scheduler/Send about ScheduleCell and
--   GetNextCell.
-- - Classifier: disguise/classifier.go: NewHMMClassifier, Predict, Train, reNormalizeProbabilities
--   and DiscretizePayloadSize.
-- - Manager: disguise/manager.go. The record has the framer, the reassembler, the scheduler, the
--   classifier, the two queues and the mutex. Each method is one function, and so is one round of
--   startCoverTrafficLoop and of startDynamicProfilingLoop. The profile pointer that the manager
--   and the framer share is the framer's; the scheduler reads only the probing interval of its own,
--   which no operation changes. Manager/Reach has the step relation.
-- - Alert: the constants of alert.go that the modelled code uses.
-- - Record: halfConn of conn.go, one direction of the record layer. Record/Protect has encrypt and
--   decrypt, Record/Padding extractPadding, Record/Sizes maxPayloadSizeForWrite, Record/Change and
--   Record/Sequence what they say, and Record/Nonce the wrappers of cipher_suites.go that make the
--   nonces of an AEAD. The ciphers are the interface Common.Crypto, of which each theorem names the
--   laws that it needs; Record/Toy fills it for the tests.
-- - Conn: Conn of conn.go. Conn/Output has write, flush, writeRecordLocked, sendAlertLocked and
--   closeNotify, Conn/Input readFromUntil, readRecordOrCCS and retryReadRecord, Conn/Disguised one
--   round of Read, readAndDecryptRecord and the loop of Write. The network is the list of the
--   results of its calls; a call that no result is left for waits. Conn/Handshake has
--   readHandshake, Close and CloseWrite.
-- - Messages: of handshake_messages.go the messages that are encoded byte by byte, with the switch
--   of readHandshake; what reads the messages of golang.org/x/crypto/cryptobyte is a parameter.
-- - Cache: lruSessionCache of common.go. The queue of container/list is the list of its elements,
--   each with a number for the pointer to it; Cache/Recent is the cache as the list of the sessions
--   used last.
-- - Keys: prf.go: pHash, the two pseudo-random functions, the keys that come from them, and in
--   Keys/Finished the hash of the handshake's messages. The hashes of the crypto packages are the
--   interface Hash.
-- - Negotiate: what client and server choose: the version and the curves (common.go), the
--   application protocol (handshake_server.go, handshake_client.go), the cipher suite
--   (cipher_suites.go, pickCipherSuite of handshake_server.go, with a server's demands and its
--   order of preference in Negotiate/Suites/Wanted) and the signature scheme (auth.go).
--   Negotiate/Client has what the client makes of a ServerHello (handshake_client.go):
--   pickTLSVersion with the test of clientHandshake for the downgrade canaries, which server_random
--   writes as processClientHello of handshake_server.go does, and processServerHello.
-- - Ticket: encryptTicket and decryptTicket of ticket.go, over AES and HMAC as parameters.
--   Ticket/Rotation has the keys of a configuration (common.go), with its mutex, Ticket/Resumption
--   checkForResumption of handshake_server.go, with the decoding of a session state as a parameter.
--   The age of a session is that of time.Unix after the conversion of createdAt to int64.
-- - Common: the names that the modules share. Common/Outcomes has the results of Go calls: a value,
--   an error, a panic, a wait for a mutex that its own goroutine holds, and the end of the fuel.
--   Common/Floats is the interface of float64 and package math, of which no law is assumed;
--   Common/Fixed fills it for the tests.
--
-- Numbers: a field of w bits is a number below 2 ^ w, and the sums that Go takes modulo 2 ^ w are
-- written so. An int is a number that is not negative; where the source subtracts, what happens
-- below 0 is written out. Clock readings are arguments. Slices are lists; what an array holds
-- behind the end of a slice is an argument where the code can reach it (DecodeCell).
--
-- Fuel: readRecordOrCCS has two rounds more than there may be useless records in a row, the loops
-- of readHandshake two rounds more than the bytes they wait for, the loop of pHash one more than
-- there are bytes to fill, writeRecordLocked one for each byte. The loop of Fragment has as many
-- rounds as there are bytes, and each round takes one at least; up and down of container/heap have
-- one round more than there are items.
--
-- Goroutines: each method holds the mutex of the manager from its first line to its last, so calls
-- of different goroutines come one after the other; what is modelled is the sequences of calls that
-- return. A call that a goroutine makes while it holds the mutex itself is blocked. The mutexes of
-- the parts are held only in calls of the manager, and no call makes another.
--
-- Where decrypt fails, the model keeps the direction as it was, though a stream or block cipher of
-- Go has moved on; but for readAndDecryptRecord the error is permanent then.
--
-- Not modelled: the handshakes themselves, beyond what they negotiate, and the messages that
-- golang.org/x/crypto/cryptobyte encodes; renegotiation and key updates; the key schedule of TLS
-- 1.3; the choice of a certificate; the mutexes of a connection; the tickers; and what a switch of
-- the profile prints.
pub mod Common
pub mod Profile
pub mod Framing
pub mod Scheduler
pub mod Classifier
pub mod Manager
pub mod Alert
pub mod Record
pub mod Conn
pub mod Messages
pub mod Cache
pub mod Keys
pub mod Negotiate
pub mod Ticket
