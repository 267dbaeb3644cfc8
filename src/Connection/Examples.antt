-- ===== src/Connection/Examples.antt =====
-- The server loop at concrete requests.
use cweb.Base.{
  ℕ, ◌≡◌, ◌≢◌, refl, true, false, [], ◌∷◌, Option, none, some, Bytes, codes, bytes_eq, ltb, leb,
  if◌then◌else◌,
}
use cweb.Http.{Request, parse_request}
use cweb.Routing.{get_route_handler, find_exact, find_dynamic}
use cweb.Sessions.{session_store_init}
use cweb.Compress.Encoding.{Doubles}
use cweb.FileCache.Mime.{is_static_file}
use cweb.FileCache.Store.{CachedFile, FileServerMode, FileServerConfig}
use cweb.FileCache.Serve.{handle_request}
use cweb.Connection.{Server, Exchange, sent, page_not_found, send_response, conn_read}
use cweb.Connection.Answers.{created, conn_read_unhandled}

abbrev few_values : Doubles
few_values = record {
  Double = ℕ;
  lt = ltb;
  le = leb;
  q_zero = 1;
  q_one = 2;
  q_minus_one = 0;
  strtod = λ s. if bytes_eq s (codes "0") then 1 else 2;
}

abbrev no_encoder : Bytes → Option Bytes
no_encoder body = none

abbrev leave : ℕ → Exchange ℕ ℕ → Exchange ℕ ℕ
leave h x = x

-- No disk.
abbrev no_disk : Bytes → Option Bytes
no_disk path = none

abbrev empty_slot : CachedFile
empty_slot = record {
  filename = [];
  mime_type = [];
  content = none;
  size = 0;
  last_modified = 0;
  is_loaded = false;
}

abbrev config : FileServerConfig
config = record {
  static_dir = none;
  cache_file = none;
  lookup_path = codes "/assets/";
  mode = FileServerMode.memory;
  auto_reload = false;
  max_file_size = 10;
  exclude_patterns = [];
}

abbrev server : Server ℕ ℕ
server = record {
  router = record { routes = []; fallback_handler = none; asset_functions = [] };
  store = session_store_init;
  files = record {
    file_cache = λ i. empty_slot;
    cache_count = 0;
    server_config = config;
    initialized = true;
  };
}

abbrev raw : Bytes
raw = codes "GET /x HTTP/1.1\r\nCookie: session_id=ab\r\n\r\n"

abbrev parsed : Request
parsed = record {
  method = codes "GET";
  path = codes "/x";
  version = codes "HTTP/1.1";
  headers = record { key = codes "Cookie"; value = codes "session_id=ab" } ∷ [];
  session_id = some (codes "ab");
}

raw_parses : parse_request raw ≡ some parsed
unfolding parse_request
raw_parses = refl

no_handler : (get_route_handler parsed.path (some false) server.router).1 ≡ none
unfolding get_route_handler find_exact find_dynamic
no_handler = refl

raw_not_empty : raw ≢ []
raw_not_empty e = absurd (cc e)

conn_read_unhandled_example :
    (bytes : Bytes) × (send_response few_values no_encoder no_encoder parsed
        (if is_static_file config.lookup_path parsed.path
          then handle_request no_disk server.files parsed.path created
          else page_not_found created).response
      ≡ some bytes)
    × ((conn_read few_values no_encoder no_encoder leave no_disk (1 ∷ []) 10 11 raw server).1
        ≡ some (sent bytes))
conn_read_unhandled_example =
    conn_read_unhandled few_values no_encoder no_encoder leave no_disk (1 ∷ []) 10 11 raw server
      parsed raw_not_empty raw_parses no_handler
