-- ===== src/Lib.antt =====
-- A model of the programs of this repository: the final project's server for SQL-like queries on
-- a CSV table, with its client, the midterm's clinic, and the homeworks HW1 (file finder), HW2
-- (polynomials by processes), HW3 (hot potato) and HW4 (students for hire).
--
-- How the parts work together. The server (Final/Server/main.c) reads a CSV file into a table. Its
-- main loop puts the descriptor of every client into a queue (Final/Server/queue/queue.c), and a
-- pool's threads take them out, split each query into tokens, and read or update the table under a
-- lock for readers and writers. In the midterm nurses bring vaccines from a file into a buffer, and
-- vaccinators take one of each kind for a citizen. In HW2 every child interpolates the points of
-- its row of a file, once for each of two degrees, and the parent, which it tells by signals,
-- prints the mean error of each round. In HW3 processes pass potatoes on through fifos and count
-- their switches in a shared memory. In HW4 a thread reads homeworks into a growing array,
-- main_thread chooses a student for each and pays in advance, and the students' threads solve them.
--
-- Files, and the code that they model:
--   Base       numbers, lists, texts and their tests, shared by all
--   Queue      Final/Server/queue/queue.c: nodes on a heap with addresses (Queue/Nodes), the queue's
--              struct as a value behind a Ref
--   Csv        Final/Server/main.c, split, get_current_row, calculate_column_number,
--              calculate_row_number, set_table, read_csv
--   Tokens     Final/Server/main.c, substr and split2; HWs/HW1/main.c, split
--   Pool       Final/Server/main.c, server_loop and the waits of thread_pool_handler
--   Session    Final/Server/main.c, the loop of thread_pool_handler on a connection, freepath;
--              Final/Client/main.c, client_request (Session/Client)
--   Query      Final/Server/main.c, which_header, parse_query, update_req_token
--   RwLock     Final/Server/main.c, the sections of parse_query under mRW
--   Options    the command lines: Final/Server/arg.c, Final/Client/arg.c, Midterm/getopt.c,
--              HWs/HW1/getopt.c, HWs/HW3/getopt.c, HWs/HW4/arg.c
--   ArrayList  HWs/HW4/list/arraylist.c
--   Hire       HWs/HW4/main.c, the choice of a student, the threads' steps, and how they end
--              (Hire/Closing); the students' file (Hire/Roster) and the lock of the money
--              (Hire/Purse)
--   Lines      fgets; HWs/HW3/main.c, get_fifos_number; HWs/HW4/main.c, calculate_line_number
--   Potato     HWs/HW3/main.c, init_shared_mem, get_certain_fifo and the game
--   Poly       HWs/HW2/lib.c: Li, Pn, setRowPairs, setCoefs (Coefs), childRound and calcErrPrint
--              (Rounds), for an arithmetic, a sscanf and a fprintf of numbers that are parameters;
--              HWs/HW2/main.c, the signals between parent and children (Signals)
--   Clinic     Midterm/main.c, nurses, vaccinators and citizens on the buffer; all its processes up to
--              their end (Staff)
--   Finder     HWs/HW1/main.c: is_valid_regex (Regex), set_type, set_perm, validate (Entry), add,
--              traverse (Tree), traverse_filesystem and main (Walk)
--   Tests      runs on concrete data
--
-- Conventions. A C function that can run into undefined behaviour (a null or dangling pointer, an
-- index out of bounds, memory that was never written) returns an Option, and `none` is that; in
-- Options `none` is an exit with the usage text, and in Finder/Regex it is out of fuel. Characters are
-- byte values. What a function reads before it is set is a parameter named junk. Whether an
-- allocation or a semaphore operation succeeds is a parameter where the source looks at it.
-- Concurrent code is a step relation, with the sections under a mutex as functions on the state;
-- a signal on a condition variable wakes at least one sleeper, and sleepers may wake without one.
--
-- Fuel. destroy_loop of Queue runs on one more than the queue's size, as many nodes as the chain has;
-- grow_loop of ArrayList on one more than the wanted capacity, since doubling a capacity that is not 0
-- adds at least one; regex_loop of Finder on one more than the lengths of name and pattern, of which
-- every turn takes something. set_table_loop of Csv runs on the length of the file, of which
-- every row takes a character.
--
-- Bounds. Integers are natural numbers or signed integers without a width, except where the
-- source's truncation shows (the file size as an int in Finder/Entry, the port's start value in
-- Options/Client, the clinic's t * c + 1 in Options/Clinic, the cool-downs in Potato). Prices and
-- money in Hire are not negative.
--
-- The server's threads. A section under mAvailable or mQueue is one step of Pool, in which SIGINT
-- may come between any two steps. What follows a failed accept or malloc is modelled, and marked by
-- a field of the state, so that a theorem can say that neither has failed. A connection delivers
-- every write as one message in Session, where neither side is interrupted; the number that sscanf
-- reads fits in an int.
--
-- Not modelled: sockets, logging, the daemon and the start of the server (with the barrier of its
-- threads) and of the client, SIGINT in the clinic, in HW2 and in HW4, and the wrappers that end
-- the program when a system call fails. getopt and atoi are parameters, and so is what a directory
-- holds.
pub mod ArrayList
pub mod Base
pub mod Clinic
pub mod Csv
pub mod Finder
pub mod Hire
pub mod Lines
pub mod Options
pub mod Poly
pub mod Pool
pub mod Potato
pub mod Query
pub mod Queue
pub mod RwLock
pub mod Session
pub mod Tests
pub mod Tokens
