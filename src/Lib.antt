-- ===== src/Lib.antt =====
-- A model of facebooc, a small social network in C: a web server with its own HTTP parser, containers
-- and codecs. A request comes in as bytes, is parsed to a request record (request line, query string,
-- header lines, cookies, form body), is answered by a handler, and goes out as a response.
--
-- Base: what the other modules share. Base/Outcome has the results of C code: a value, a fault (an
-- access out of bounds or through an invalid pointer) or stuck (a loop that goes on past its fuel).
-- Base/Text has C strings as lists of bytes, and Base/Results what holds of the value of a run.
-- BasicString: src/basic_string.c, strings with a size.
-- Base64: src/base64.c. Its children are on one group of four symbols (Groups), on lists of groups
-- (Blocks) and on the whole codec (RoundTrip).
-- HashMap: src/hash_map.c. A pair carries its address, as the code compares pointers. Expand has the
-- valid states (IsValid), Table and Probe the probing of the slots, Values what holds of all values of
-- a table, and the others the operations.
-- Utility/Escape, Utility/Search, Utility/Digest and Utility/Random: html_escape_trans, newline_to_br,
-- find_first_of with its Boyer-Moore search, sha256_string, get_rand (src/utility.c), and
-- src/string_view.c.
-- Http/Url: urldecode2, url_decoder, url_encoder of src/http/helper.c, with the size of the buffer.
-- Http/Form: make_pair, pair_lexer, and src/http/query.c. Http/Body: src/http/body.c.
-- Http/Header: src/http/header.c. Http/Cookies: src/http/cookies.c.
-- Request: src/request.c, with the request line (Line) and a whole request (Whole). Response:
-- src/response.c.
-- Database: what the models use of sqlite3, a parameter, and the tables of src/db.c (Tables).
-- Models: src/models. Account, Session, Connection, Like and Post have the operations. Sql has what
-- the statements mean for the tables, the hypotheses on sqlite3, which Models/Memory meets with
-- tables in memory. Account/Users has the users that the rows of accounts stand for. Account/Reading,
-- Account/Writing and Account/Unique are on the accounts, Session/Reading and Session/Login on
-- logging in, Like/Toggle on likes, Post/Stored on posts.
-- OrderedMap: the operations of src/map.c, over the tree of src/rbtree.c as a parameter.
-- Template: src/template.c. Fill is on placeholders, Ends on the rounds of the loop.
-- LinkedList: src/list.c, over a store of nodes; Refine has the lists that the nodes stand for.
-- Server: fetch_dir, the registration of handlers, handle and the loop of serverServe of src/server.c,
-- and the table of src/facebooc_server.c; Keep has the rule for what all handlers keep. Handler: Account has src/handler/helper.c, Actions the handlers that change
-- the database and redirect, Pages and Views those that show a page, Markup the texts that are
-- written to arrays for them, Signup the checks of a form, and Static src/handler/static_handler.c.
-- Site: the server of src/facebooc_server.c with these handlers over one database. Sound says when the
-- tables are in order, Step what one request may do to them, Finds is on what the lookups find, Steps,
-- Actions and Pages on the operations and the handlers as such steps, Reach and Session on sequences
-- of events.
--
-- The functions have the names of the code in snake case, with _handler behind the names of handlers.
-- State that C code mutates is passed and
-- returned; the circular lists of src/list.c, which their users only extend at one end and walk, are
-- lists there. Numbers are natural numbers, with the wrap-around of size_t and of the hash written
-- out, and that of the int product in url_decoder; an int that must not overflow is a fault beyond 2 ^ 31
-- (url_encoder, List_size). html_escape_trans is modelled for texts of fewer than 2 ^ 29 bytes, on which its
-- int counters do not overflow, and the ids and times that the models read from sqlite3 are taken to have
-- 32 bits. Loops over a text or an array are structural; the probing of the hash map gets one round for
-- each slot, the search and the parsers one for each byte of the text, and theorems show that this is
-- enough where they say that a function returns. A template gets one unit of fuel for each level of
-- files that include files. Hash_map_erase gets its fuel as an argument, since it need not end.
--
-- What recv and accept give is a sequence of events, which takes the place of the endless loop of
-- serverServe, and what a handler reads from outside comes with the event, and so does the number of bytes that the
-- socket, which does not block, accepts at each send.
--
-- Not modelled: allocation failure, freeing, the sockets and epoll (src/server.c), the clock, OpenSSL
-- and sqlite3 (parameters), the texts of strftime, and src/rbtree.c, a copy of another
-- project's tree (a parameter).
pub mod Base
pub mod BasicString
pub mod Base64
pub mod HashMap
pub mod Utility
pub mod Http
pub mod Request
pub mod Response
pub mod Server
pub mod Handler
pub mod Site
pub mod LinkedList
pub mod Database
pub mod Models
pub mod OrderedMap
pub mod Template
