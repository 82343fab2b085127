-- ===== src/Nginx/Tests/Requests.antt =====
-- The theorems on the filters and on parse() at concrete inputs.
use go_mesi.Base.{
  true, false, List, [], ◌∷◌, none, some, Bytes, codes, length, ◌≡◌, negsuc, refl, arith, All,
}
use go_mesi.Apache.Directive.Template.{contains}
use go_mesi.Nginx.Config.{create_loc_conf}
use go_mesi.Apache.Filter.{c_string}
use go_mesi.Nginx.Worker
use go_mesi.Nginx.Worker.{Worker, Symbols, fresh, thread_init, thread_exit, free_cache, dlclose}
use go_mesi.Nginx.Body
use go_mesi.Nginx.Body.{Buf, Ctx, new_ctx, forwarded, kept, body_filter}
use go_mesi.Nginx.Body.Grow
use go_mesi.Nginx.Body.Keeps.{IsDrained, body_filter-IsValid, body_filter-wakes}
use go_mesi.Nginx.Body.Stream
use go_mesi.Nginx.Body.Stream.{run, received, page_of, Delivers}
use go_mesi.Nginx.Body.Delivers.{body_filter-Delivers}
use go_mesi.Nginx.Head
use go_mesi.Nginx.Head.{
  Response, head_filter, skips, take_response, ngx_test_is_html, ngx_test_content_compression,
}
use go_mesi.Nginx.Head.Gates.{Eligible}
use go_mesi.Nginx.Parse
use go_mesi.Nginx.Parse.{Request, bad_settings, parse}
use go_mesi.Nginx.Parse.Protects.{Safe}
use go_mesi.Nginx.Parse.Calls.{parse-Safe}
use go_mesi.Nginx.Parse.Caches.{first_calls}
use go_mesi.Nginx.Parse.Answers
use go_mesi.Nginx.Parse.Answers.{Answered, parse-Answered}
use go_mesi.Nginx.Served.{parse_with, AnsweredBy, served}
use go_mesi.Nginx.Tests.{site, site-IsMerged, browser}

abbrev library : Symbols
library = record {
  parse = true;
  parse_with_config = true;
  parse_with_config_ex = true;
  parse_with_config_ctx = true;
  parse_json = true;
  init_cache = true;
  init_cache_with_config = true;
  free_cache = true;
}

abbrev worker : Worker
worker = record fresh { go_module = true; esi = library }

abbrev pool : Body.Alloc
pool = record { data_of = λ n. true; link = true; buf = true }

-- A page in two buffers, and the wake-up behind them.
abbrev chain : List Buf
chain =
    record { bytes = codes "<esi:x"; last_buf = false }
    ∷ record { bytes = codes "/>"; last_buf = true }
    ∷ []

body_filter-IsValid_example :
    (next : Ctx) × ((body_filter pool (λ s. s) true site 4 (some new_ctx) chain).0 ≡ some next)
    × Grow.IsValid site next
body_filter-IsValid_example =
    body_filter-IsValid pool (λ s. s) true site 4 new_ctx chain (omega arith)
      (record { fits = omega arith; limited = λ p. omega arith })

body_filter-wakes_example :
    ((body_filter pool (λ s. s) true site 4 (some new_ctx) []).1.sent ≡ forwarded [])
    × ((body_filter pool (λ s. s) true site 4 (some new_ctx) chain).1.sent ≡ kept
        → All IsDrained (body_filter pool (λ s. s) true site 4 (some new_ctx) chain).1.left
          × (length (body_filter pool (λ s. s) true site 4 (some new_ctx) chain).1.left
              ≡ length chain))
body_filter-wakes_example =
    body_filter-wakes pool (λ s. s) true site 4 new_ctx chain (omega arith)
      (record { fits = omega arith; limited = λ p. omega arith })

abbrev calls : List Stream.Call
calls = record { alloc = pool; chain = chain } ∷ record { alloc = pool; chain = [] } ∷ []

pool-Allocates : Stream.Allocates pool
pool-Allocates = record { data_of = λ n. refl; link = refl; buf = refl }

body_filter-Delivers_example :
    Delivers (λ s. s) (page_of site [] (received calls)) (run (λ s. s) site 4 new_ctx calls)
body_filter-Delivers_example =
    body_filter-Delivers (λ s. s) site 4 calls refl (omega arith)
      (pool-Allocates, (pool-Allocates, tt))

abbrev heap : Head.Alloc
heap = record { low = true; push = true; ctx = true }

abbrev response : Response
response = record {
  header_only = false;
  is_main = true;
  status = 200;
  content_length_n = negsuc 0;
  content_encoding = none;
  content_type = codes "text/html";
  headers = [];
  filter_need_in_memory = false;
  weak_etag = false;
}

abbrev memory : Parse.Alloc
memory = record {
  backend = true;
  blob_copy = true;
  blob = true;
  base_url = true;
  input_cstr = true;
  base_url_cstr = true;
  hosts_cstr = true;
  ctx_json = true;
  parse_config = true;
  template_cstr = true;
  output = true;
}

memory-Allocates : Answers.Allocates memory
memory-Allocates = record {
  backend = refl;
  base_url = refl;
  input_cstr = refl;
  base_url_cstr = refl;
  hosts_cstr = refl;
  ctx_json = refl;
  parse_config = refl;
  template_cstr = refl;
  output = refl;
}

abbrev request : Request
request = record { schema = codes "http"; host = some (codes "e"); headers_in = browser }

abbrev answer : Worker.Call → Bytes
answer c = codes "done"

parse-Safe_example :
    Safe site library request
      (c_string (codes "page"))
      (λ c. none)
      (parse memory (λ c. none) site request (codes "page") worker)
parse-Safe_example = parse-Safe memory (λ c. none) site request (codes "page") worker

parse-Answered_example :
    Answered site worker answer
      (first_calls memory site worker)
      (parse memory (λ c. some (answer c)) site request (codes "page") worker)
parse-Answered_example =
    parse-Answered memory answer site request (codes "page") worker memory-Allocates site-IsMerged
      (omega arith) refl refl

taken : (head_filter heap true site response none).ctx ≡ some new_ctx
unfolding head_filter skips take_response ngx_test_is_html ngx_test_content_compression
    create_loc_conf contains
taken = refl

served_example :
    Eligible site true response
    × Delivers
        (parse_with memory answer site request worker)
        (page_of site [] (received calls))
        (run (parse_with memory answer site request worker) site 4 new_ctx calls)
    × ((html : Bytes)
        → AnsweredBy answer site request worker html
            (parse_with memory answer site request worker html))
served_example =
    served site response request worker heap memory answer 4 calls site-IsMerged taken
      memory-Allocates (omega arith) refl (omega arith) (pool-Allocates, (pool-Allocates, tt))
