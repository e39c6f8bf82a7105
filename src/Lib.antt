-- ===== src/Lib.antt =====
-- The C programs of the repository: a collection of small programs and experiments, each with a `main`
-- of its own, that share no state with one another. This library models twelve of them.
--
-- Des, the cipher of cpp/algorithm/3des.c.
--   Des/Tables holds the tables as they stand in the source, Des/Blocks the operations on arrays of
--   bits (bit_cpy, byte_to_bit, bit_to_byte, bit_to_hex, hex_to_bit, tbl_replace, loop_bit, xor) and
--   Des/Cipher the key schedule (set_key, whose table of sub-keys is its result, where the source
--   writes the global `sub_key`) and the rounds (s_change, f_change, encrypt, decrypt). A `bool` cell
--   is a Bool and a `char` a natural number. An array that the caller gives is an argument and its
--   contents behind the call the result. The scratch array `tmp` starts as 256 zeros.
-- Num, the decimal numbers of cpp/algorithm/big_num.c.
--   Num/Memory is a block of `int` cells as malloc and realloc give it: each cell holds a value or is
--   indeterminate, and an access outside the block, or a read of an indeterminate cell, is `none`.
--   Num/Ops has the type BigNum and one function per operation of the source. Num/Digits is the
--   independent view: lists of decimal digits, lowest first, and the natural number they stand for.
--   Allocation does not fail here, and the two operands of an operation are not one object.
-- Crc, the checksum CRC16_XMODEM of cpp/algorithm/crc16_xmodem.c, bit by bit, with the 16-bit
--   wrap-around of `unsigned short` written out.
-- Pool, the connection pool of cpp/mysql/dbpool.c (createConPool, init_pool, get_con, release_con).
--   Pool/Clients is the transition system of the pool and its clients, with the set of the leased
--   connections as the abstract view.
--   A connection is the number of its address. What `init_con` gets from the MySQL client library is a
--   parameter, a function from the number of the call to the connection or `none`, and its use states
--   as a hypothesis that all calls return connections that differ. Counters wrap at 32 bits.
-- Rsa, the demonstration of RSA with small primes in cpp/algorithm/rsa_demo.c (get_com_div, is_prime,
--   get_private_key, get_random, encrypt_dt, decrypt_dt), with the 32-bit wrap-around of products. The
--   numbers of `rand` are a parameter, a function from the number of the call.
-- Sort, the exchange sort popup and the quicksort q_sort of cpp/algorithm/algorithm.c, on the array that
--   they fill with random numbers. Sort/Shuffle says what exchanges in a range of cells keep.
-- RsaCells, encrypt_dt and decrypt_dt of cpp/algorithm/rsa_algorithm.c, over 20 cells and with an `int`
--   and an `unsigned long` product, and dec of cpp/algorithm/rsa_deploy.c.
-- Prime, the function isprime of cpp/algorithm/isprime.c, set against is_prime of Rsa.
-- Big, the class BigNum of cpp/BigNum.cpp and the functions of its Paillier demonstration.
--   Big/Ops has the type, the constructors, Compare, and the operators + - * == !=, Big/Divide the
--   operators / and %, Big/Crypt power_mod, ex_euclid, Gcd, Lcm, Lfunction, Random, Rabin_Miller,
--   GeneratePrime and printS, and Big/Primes the table of small primes. Big/Value is the independent
--   view, the natural number that the cells stand for. The width of `unsigned long` and the numbers of
--   `rand` are parameters.
-- Web, the functions of cpp/http/util.c that cut an HTTP request into parts (getmethod, geturi, getln,
--   getbody, getjsonv), and how dispatch of cpp/http/dispatcher.c uses them. A text is the list of its
--   characters, a buffer the list of its cells, and a write outside a buffer is `none`. Web/Cut,
--   Web/Line and Web/Body say independently which part of a text each function takes.
-- Peer, the client: req of cpp/http/http.c, which prints a request, has it sent and cuts a line out of
--   the answer, and writemsg of cpp/http/peer.c, which sends it and collects the answer. The calls
--   `connect`, `write`, `recv` and `close` are parameters on a state of the world. Peer/Request joins
--   it with Web: what `req` prints is what `dispatch` cuts. Peer/Pieces says which bytes are kept of a
--   stream that comes in pieces of any sizes: a piece of fewer than 256 bytes ends the reception.
-- Serve, the answer of dispatch in cpp/http/dispatcher.c. Serve/Route joins it with Web, Report and Peer:
--   a report that the client sends is parsed by the server, and the client reads the answer.
-- Report, the parser of cpp/http/dtparser.c (parsedt, prs_up_rpt_dt, prs_dt_u, prs_up_rpt_dt_obj,
--   prs_evt_ext, prs_at_ext), which prints the fields of a report as JSON. The array that holds the
--   report is the list of its cells, and a read behind them is `none`; a static buffer is the string that
--   it holds, and a string that its cells do not take is `none`. Report/Json has the layout of a report
--   by keys and positions, written down apart from the tables of the parser.
-- Evl, the counts get_rw_rm, get_rw_t, get_col_t and gt_hl of the board evaluation in cpp/test/eipd.c,
--   on rows whose bits are the cells.
-- Net, the functions Read, Write, Readn, Writen, my_read and Readline of cpp/tcp_concurrent.cc. The calls
--   `read` and `write` of the system are parameters on a state of the world. Net/Socket states what they
--   promise: the bytes come in order and none is lost, and a call does not fail for ever.
-- Base holds what these share: the comparisons of C on natural numbers, arrays as lists, chains of steps
--   that may be undefined, and the loop that sweeps over an array.
--
-- Bounds and fuel. Most loops run over an index range that is known when they start: they are
-- structural recursion on the number of the rounds that are left. The others have fuel. The block of a
-- big number of Num grows in each round of its loop, and the number whose digits are counted falls: the
-- fuel is the length that is wanted, and the number and one more. The recursion of get_com_div has fuel
-- for more calls than its smaller argument, which falls with each call. The endless loop of get_random,
-- and the loops of Big that end on a value, have the fuel that the caller gives; the division by one
-- cell uses none of it, and Gcd needs no more rounds than the value of its second number.
-- Each call of q_sort is on a shorter range, and each round of its loop on a nearer pair of indices. The
-- loops of Net have fuel for the bytes and for the calls that fail.
-- writemsg of Peer has a round for each 256 bytes and one to end; 10 digits are enough for an `int` and
-- 19 for a `long`.
-- getjsonv leaps in its text: it has one round for each character and one to end.
-- Digits, positions and lengths of Num stay far below 2 ^ 31 on the inputs of the theorems; where the
-- source multiplies in `int`, in my_pow, a result that does not fit is `none`.
--
-- Not modelled. In these files: printing to the console, except for the digits of a big number,
-- freeing memory (destroy_big_num, destroy_pool), the debug output, the programs in `main`, the
-- functions of cpp/test/eipd.c that read an indeterminate index (get_ld_h, get_col_t1, and evl, which
-- calls the first) and gt_wl, print of the class BigNum and the source of random numbers. In cpp/http:
-- the time of day, decdt of dispatcher.c, whose call is commented out, and the sockets and threads of
-- the server. Elsewhere: the sockets, the IPC and thread programs, the GTK and X11 windows, the
-- programs against MySQL and OpenSSL, the other exercises of cpp/algorithm, and all programs in other
-- languages.
pub mod Base
pub mod Des
pub mod Num
pub mod Crc
pub mod Pool
pub mod Rsa
pub mod RsaCells
pub mod Sort
pub mod Prime
pub mod Big
pub mod Report
pub mod Evl
pub mod Net
pub mod Web
pub mod Peer
pub mod Serve
