-- ===== src/Lib.antt =====
-- capptpl: a program that captures packets with libpcap and receives messages with zmq, matches
-- packets against words and regular expressions, and reports over HTTP.
--
-- How the parts work together. `main` (apptpl/main.c) reads the configuration, opens the inputer
-- and the capture, creates the policies, and starts the threads. The capture's callback allocates
-- a packet and sends it over a channel to the parser threads, which share one `struct parser`;
-- they match it and free it. The inputer's thread receives messages and sends them over a second
-- channel to the worker's thread, which counts and frees them.
--
-- Which file models what:
--   Packets    apptpl/pkt.c (packet_new, packet_free), pkt_cb of apptpl/capture.c, parser_loop of
--              apptpl/parser.c, with its timer. Packets/Order, Packets/Turns, Packets/Counts,
--              Packets/Captured and Packets/Refine are about every schedule;
--              Packets/Closing is the end of `main` for the parsers.
--   Messages   inputer_loop of apptpl/inputer.c, worker_loop of apptpl/worker.c. Messages/Order,
--              Messages/Counts, Messages/Stop and Messages/Refine are about every schedule;
--              Messages/Closing is the end of `main` for both threads.
--   Channel    what the threads rely on of lib/cchan-0.1, as a record of operations and laws;
--              Channel/Pipe is what it promises to those outside.
--   Inputer    inputer_open, inputer_stop and the end of inputer_loop, of apptpl/inputer.c.
--   Capture    capture_open, capture_close, capture_stats, capture_loop_stop and, in
--              Capture/Loop, capture_loop, of apptpl/capture.c.
--   Regex      apptpl/re_policy.c: Regex/Load is re_policy_load, Regex/Policy is
--              re_policy_create, re_policy_destroy and re_policy_match. The cre2 library is a
--              parameter, a record of operations and laws.
--   Words      word_policy_create and word_policy_destroy, of apptpl/word_policy.c.
--   Config     apptpl/myconfig.c: ini_callback, and config2json in Config/Json, with the loop of
--              capture_dump beside that of config2json; Config/Json/Reader is a reader of such
--              texts.
--   Files      copy_file, copy_file_from_tpl and load_config_ini, of lib/load_config.c, and
--              load_config of apptpl/myconfig.c. A disk is a function from paths to contents.
--              Files/Directory is ch_exec_cwd, of lib/load_config.c.
--   Reports    parser_dump of apptpl/parser.c, capture_dump of apptpl/capture.c and the text of
--              stats_handler of apptpl/api_handler.c.
--   Http       apptpl/api_handler.c: the routes, the handlers and, in Http/Handle, api_handler.
--              libevent and cJSON are a parameter. Http/Live puts them over the states that the
--              threads have reached when each counter is read. Http/Loop is magt_loop and its callbacks, of apptpl/magt.c.
--   Server     the rest of apptpl/magt.c: ssl_init, magt_init and magt_close; libevent, OpenSSL and
--              malloc answer by arguments.
--   Parsers    parser_create and parser_destroy, of apptpl/parser.c, over Words and Regex/Policy;
--              in Parsers/Matching, what parser_loop does with a packet, and word_policy_match of
--              apptpl/word_policy.c.
--   Program    apptpl/main.c from the call of magt_init on: what opens and closes the components.
--              Program/Start is all of main, with the copies of the policies' files, parse_args of
--              apptpl/apptpl_init.c, test_config of apptpl/myconfig.c and init_log of
--              lib/init_log.c.
--   Hex        lib/hex.c: bin2hex, hexchr2bin and hex2bin, and dump_hex in Hex/Dump.
--   Client     the second program: apptpl2/apptpl2_init.c (ini_callback, with the struct of its
--              header; config2json in Client/Report), apptpl2/doredis.c in Client/Redis and
--              apptpl2/api_handler.c in Client/Http.
--   ProcStat   jump2utime and proc_stat_decode, of lib/proc_cpu_stat.c; read_proc_stat and the loop
--              of its `main` in ProcStat/Usage.
--   Base       lists, byte strings, integers, C's string functions, the ledger, and computations on
--              parts of a state.
--   Tests      runs of the definitions.
--
-- How the code is represented. A byte is a number, a string the list of its bytes, a fixed array
-- the list of all its bytes. A counter of 64 bits is a number modulo 2 ^ 64. A write outside an
-- array, a read without end and a `free` of what is not allocated give `none`. A function that
-- allocates runs on a ledger, the list of what is allocated (Base/Ledger): it acquires and
-- releases resources, and what the libraries answer is an argument. Threads are steps of one
-- state, and a schedule is a list of events. A round of a thread is cut at the test of its loop, where
-- it waits, at each shared counter and where it frees; a counter that one thread alone writes is
-- counted in the step of the channel's call, and a call of pkt_cb is one step.
--
-- Bounds and fuel. `re_policy_load` runs on fuel, one unit for a round of its loop; as many as
-- the file has bytes are enough wherever the loop ends. The loop of `copy_file` has one round
-- more than the file has bytes, which is more than its blocks of 64 bytes need. Everything else
-- is structural.
--
-- What is not modelled: log messages, the banner and sleeps; list_devices and the other functions
-- that only print; the functions under `#if 0`; apptpl2/magt.c, which is
-- apptpl/magt.c with another argument, and cpptpl, a variant of the same program in C++; when hiredis
-- frees a context; lib/backtrace.c, which only calls libunwind; the trial programs under test; and
-- the copies of other projects under lib.
pub mod Client
pub mod ProcStat
pub mod Program
pub mod Parsers
pub mod Server
pub mod Words
pub mod Files
pub mod Http
pub mod Reports
pub mod Packets
pub mod Inputer
pub mod Capture
pub mod Messages
pub mod Channel
pub mod Base
pub mod Hex
pub mod Config
pub mod Regex
pub mod Tests
