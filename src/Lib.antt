-- ===== src/Lib.antt =====
-- cweb: a model of the core of the cweb web framework, and what it guarantees.
--
-- A request comes in at a connection (framework/src/Server/server.c), is parsed
-- (framework/src/Http/http.c), may get a session (framework/src/Sessions/session.c), and is handed
-- to the handler that the route table (framework/src/Routing/routing.c) chooses with the help of
-- the path functions (framework/src/PathUtils/pathutils.c). A handler fills the response at once, or leaves
-- it to a later callback; then it waits in the queue of framework/src/Server/server_pending.c.
-- Pages are compiled from templates by framework/src/templatengine.
--
-- Base: lists, Boolean tests, and C strings as lists of bytes with the functions of <string.h>,
--   <ctype.h> and <stdio.h> that the sources call.
-- Logger: framework/src/Logger/logger.c and framework/src/dev/mode.c; when a message ends the process.
-- PathUtils: framework/src/PathUtils/pathutils.c. RouteBase is cweb_get_route_base, Query is
--   parse_query and the lookups, Segments is cweb_split_path_segments, cweb_path_matches and
--   cweb_get_path_param, Normal is cweb_normalize_path, Decode is cweb_url_decode, FileKind are the tests
--   on file endings.
-- Routing: framework/src/Routing/routing.c; the static arrays are the record Router.
-- Sessions: framework/src/Sessions/session.c; the store is a function from buckets to chains.
-- Pending: framework/src/Server/server_pending.c and the callbacks of server.c, as a relation Step.
-- Http: framework/src/Http/http.c.
-- Connection: conn_read_cb and cweb_send_response of framework/src/Server/server.c, over all of the components that
--   they call. A handler is any function on the request, the response and the static variables that a request
--   meets, so that it may create a session, register a route or change the cache.
-- LeakTracker: framework/src/leak_detector/leakdetect.c; Removal is the list with its gap filled, Contents
--   the table as a map.
-- SpeedBench: framework/src/SpeedBench/speed_benchmark.c; Ring is the array of samples, History what is
--   read out of it after a row of calls.
-- Template: framework/src/templatengine. Lexer is lexer.c, Parser is parser.c with ast.c over any
--   source of tokens, Security is security.c, Runtime is runtime.c. Codegen is the generator of C, as the texts that
--   it writes: Output is codegen_emit_common.c, Style and Css are codegen_css.c, Html is codegen_html.c, Signature
--   is codegen_signature.c and Files is codegen.c. A copy past the end of an array has no result there.
-- Fetch: framework/src/fetch, the requests of the HTTP client; Url is fetch_request_build_url, Answers the lookup of
--   a header in an answer.
-- AsyncStateMachine: app/plugins/async_state_machine.c; Account follows every order of starts and answers.
-- Compress: framework/src/compress. Turns is the loop that the minifiers share, with the output kept last byte
--   first; Css, Js and Html are minify_css.c, minify_js.c and minify_html.c, Asset is minify.c, Encoding is
--   compress.c.
-- FileCache: framework/src/filecache. Streams is rw_utils.c, Mime is getter_isser.c, Store is the state with crud.c
--   (Image is what a saved cache looks like), Scan is fileserver.c, configuration.c and cleanup.c, Serve is serve.c.
--
-- Numbers: sizes and lengths are natural numbers; the hash of session.c and the difference of
-- pointers in parse_query keep their wrap-around modulo 2^64. Buffers keep their bounds (64 and 256 bytes in a
-- query parameter, 256 in a path segment, 8192 in a token, 64 headers, 128 routes). Not cut to a machine word
-- are the product of a capacity with the size of a record in leakdetect.c (a table below 2^64 bytes) and the int
-- positions of the minifiers (a text below 2^31 bytes). A > behind a control tag that fills the buffer of lexer.c is
-- taken as if there were room for it, where the code writes behind its buffer.
-- Fuel: turns of Compress, parse_body of Template.Parser, grow of Template.Runtime, and attr_loop and
--   search_declaration of Template.Codegen run on fuel. One unit for each byte is enough for the first and the
--   last two, whose turns pass a byte each or end, one more than the text has bytes for the second, and 64
--   for the third, which doubles a capacity below 2^63. The other loops are recursions on their input or on
--   the room left in a buffer.
--
-- Not modelled: allocation failures and the functions that only free memory, the printing of log
-- messages, libevent, the transfers of libcurl, JSON, the compression libraries, what the code generator
-- asks of files, the pages and drivers of the example application, the table of Cwagger and the console
-- tool, which is glue around the file system and the compiler. Random bytes and the clocks are arguments.
pub mod Base
pub mod AsyncStateMachine
pub mod Compress
pub mod Connection
pub mod Fetch
pub mod FileCache
pub mod Http
pub mod LeakTracker
pub mod Logger
pub mod PathUtils
pub mod Pending
pub mod Routing
pub mod Sessions
pub mod SpeedBench
pub mod Template
