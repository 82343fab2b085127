-- ===== src/Nginx/Parse/Answers.antt =====
-- Where nothing fails, parse() makes one call to parse, and its answer goes to the client.
use go_mesi.Base.{
  ◌≤◌, is_some, Bool, true, false, not, ◌&&◌, ◌||◌, List, [], ◌∷◌, ◌++◌, some, Bytes, ℤ, pos,
  negsuc, to_nat, if◌then◌else◌, or_else, ◌≡◌, refl, sym, ◌∙◌, arith, Bool-cases, if-elim, inl, inr,
}
use mathlib.Core.Bool.{true≢false}
use go_mesi.Json.Value.{print}
use go_mesi.Apache.Config.{non_empty}
use go_mesi.Apache.Filter.{c_string}
use go_mesi.Apache.Config.Valid.{UpTo}
use go_mesi.Nginx.Config.{LocConf, max_max_depth, max_max_response_size}
use go_mesi.Nginx.Config.Valid.{IsMerged}
use go_mesi.Nginx.Render.{built}
use go_mesi.Nginx.RequestCtx.{build_request_ctx_json}
use go_mesi.Nginx.RequestCtx.Exact.{context_of, needs, build_request_ctx_json-exact}
use go_mesi.Nginx.ParseConfig.Exact.{build_parse_json_config-Apache}
use go_mesi.Nginx.Worker.{Worker, Call}
use go_mesi.Nginx.Worker
use go_mesi.Nginx.Parse.{
  Request, Alloc, Output, page, needs_cache, cache_calls, Parsed, configured, base_url_of, hosts_of,
  Cached, called, broken_blob, with_cache, Message, message, legacy_calls, template_calls,
  json_calls, outcome, parse_page, parse,
}
use go_mesi.Nginx.Parse.Guards.{bad_settings-IsMerged}
use go_mesi.Nginx.Parse.Caches.{Whole, cache-Whole, calls_of, first_calls}

-- Every allocation succeeds that the answer needs; those of the cache's blob may fail.
pub record Allocates (a : Alloc) : Type 0 where
  pub backend : a.backend ≡ true
  pub base_url : a.base_url ≡ true
  pub input_cstr : a.input_cstr ≡ true
  pub base_url_cstr : a.base_url_cstr ≡ true
  pub hosts_cstr : a.hosts_cstr ≡ true
  pub ctx_json : a.ctx_json ≡ true
  pub parse_config : a.parse_config ≡ true
  pub template_cstr : a.template_cstr ≡ true
  pub output : a.output ≡ true

module _ (lcf : LocConf) (esi : Worker.Symbols) where
  abbrev pub by_json : Bool
  by_json = configured lcf && esi.parse_json

  abbrev pub by_template : Bool
  by_template = non_empty lcf.cache_key_template && esi.parse_with_config_ctx

  -- The entry point that the settings and the library select.
  abbrev pub IsEntry : Call → Type 0
  IsEntry (Worker.parse_json i c) = by_json ≡ true
  IsEntry (Worker.parse_with_config_ctx i d u h b a t c) = (by_json ≡ false) × (by_template ≡ true)
  IsEntry (Worker.parse_with_config_ex i d u h b a) =
      (by_json ≡ false) × (by_template ≡ false) × (esi.parse_with_config_ex ≡ true)
  IsEntry (Worker.parse_with_config i d u h b) =
      (by_json ≡ false)
      × (by_template ≡ false)
      × (esi.parse_with_config_ex ≡ false)
      × (esi.parse_with_config ≡ true)
  IsEntry (Worker.parse i d u) =
      (by_json ≡ false)
      × (by_template ≡ false)
      × (esi.parse_with_config_ex ≡ false)
      × (esi.parse_with_config ≡ false)
  IsEntry _ = ⊥

-- An answered page, behind the calls before.
abbrev pub Answered : LocConf → Worker → (Call → Bytes) → List Call → Parsed → Type 0
Answered lcf w answer before p =
    (c : Call) × IsEntry lcf w.esi c × (p.calls ≡ before ++ c ∷ []) × (p.output ≡ page (answer c))

module _ (lcf : LocConf) (w : Worker) (answer : Call → Bytes) (r : Request) (input : Bytes) where
  -- One call, and its answer.
  abbrev Asked : Message → Type 0
  Asked m = (c : Call) × IsEntry lcf w.esi c × (m ≡ message (c ∷ []) (some (answer c)))

  legacy-Asked :
      by_json lcf w.esi ≡ false
      → by_template lcf w.esi ≡ false
      → (w.esi.parse_with_config_ex || w.esi.parse_with_config || not (non_empty lcf.allowed_hosts))
        ≡ true
      → Asked (legacy_calls (λ c. some (answer c)) lcf w r input [])
  unfolding legacy_calls
  legacy-Asked j t p =
      if-elim Asked w.esi.parse_with_config_ex _ _ (λ e. (_, (j, t, e), refl))
        (λ e.
          if-elim Asked w.esi.parse_with_config _ _ (λ c. (_, (j, t, e, c), refl))
            (λ c.
              if-elim Asked (non_empty lcf.allowed_hosts) _ _
                (λ n. absurd (true≢false (sym p ∙ rw (e, c, n) refl)))
                (λ n. (_, (j, t, e, c), refl))))

  module _ (alloc : Alloc) (good : Allocates alloc) (merged : IsMerged lcf) where
    context :
        build_request_ctx_json alloc.ctx_json r.headers_in lcf.cache_key_template
        ≡ built (if needs lcf.cache_key_template then print (context_of r.headers_in) else [])
    context = rw good.ctx_json (build_request_ctx_json-exact r.headers_in lcf.cache_key_template).0

    template-Asked :
        by_json lcf w.esi ≡ false
        → (w.esi.parse_with_config_ex
            || w.esi.parse_with_config
            || not (non_empty lcf.allowed_hosts))
          ≡ true
        → Asked (template_calls alloc (λ c. some (answer c)) lcf w r input)
    unfolding template_calls
    template-Asked j p =
        if-elim Asked (by_template lcf w.esi) _ _
          (λ t.
            if-elim Asked alloc.template_cstr _ _ (λ a. rw context (_, (j, t), refl))
              (λ a. absurd (true≢false (sym good.template_cstr ∙ a))))
          (λ t. legacy-Asked j t p)

    depth : to_nat lcf.max_depth ≤ max_max_response_size
    depth = small lcf.max_depth merged.max_depth
      where
        small : (v : ℤ) → UpTo max_max_depth v → to_nat v ≤ max_max_response_size
        small (pos n) h = omega arith
        small (negsuc n) h = absurd h

    json-Asked :
        by_json lcf w.esi ≡ true → Asked (json_calls alloc (λ c. some (answer c)) lcf r input)
    unfolding json_calls
    json-Asked j =
        let ctx = if needs lcf.cache_key_template then print (context_of r.headers_in) else [] in
        let config =
          (build_parse_json_config-Apache lcf (to_nat lcf.max_depth) (base_url_of r) (hosts_of lcf)
            ctx merged.numbers depth).1 in
        rw (context, good.parse_config) (rw config (_, j, refl))

    outcome-Answered :
        (before : List Call) (m : Message)
        → Asked m
        → Answered lcf w answer before (outcome alloc w before m)
    outcome-Answered before m (c, entry, e) = rw e (
      c,
      entry,
      refl,
      if-elim (λ (o : Output). o ≡ page (answer c)) alloc.output _ _ (λ a. refl)
          (λ a. absurd (true≢false (sym good.output ∙ a))),
    )

    copied :
        (a b n h : Bool) → a ≡ true → b ≡ true → h ≡ true → not (a && b && (not n || h)) ≡ false
    copied a b n h ea eb eh = ground arith

    page-Answered :
        (before : List Call)
        → is_some r.host ≡ true
        → (w.esi.parse_with_config_ex
            || w.esi.parse_with_config
            || not (non_empty lcf.allowed_hosts))
          ≡ true
        → Answered lcf w answer before
            (parse_page alloc (λ c. some (answer c)) lcf r input w before)
    unfolding parse_page
    page-Answered before host p =
        let A = Answered lcf w answer before in
        rw host (
          if-elim A (not alloc.base_url) _ _
            (λ b. absurd (true≢false (sym b ∙ rw good.base_url refl)))
            (λ b.
              if-elim A
                (not (
                  alloc.input_cstr
                  && alloc.base_url_cstr
                  && (not (non_empty lcf.allowed_hosts) || alloc.hosts_cstr)))
                _ _
                (λ c. absurd (
                  true≢false (
                    sym c
                    ∙ copied alloc.input_cstr alloc.base_url_cstr (non_empty lcf.allowed_hosts)
                        alloc.hosts_cstr good.input_cstr good.base_url_cstr good.hosts_cstr)))
                (λ c. outcome-Answered before _ (
                  if-elim Asked (configured lcf && w.esi.parse_json)
                    (json_calls alloc (λ c. some (answer c)) lcf r input)
                    (template_calls alloc (λ c. some (answer c)) lcf w r input) json-Asked
                    (λ j. template-Asked j p)))))

-- Behind the initialisation of the cache.
with_cache-Answered :
    (alloc : Alloc) (answer : Call → Bytes) (lcf : LocConf) (r : Request) (input : Bytes)
    (w : Worker) (c : Cached)
    → Whole c
    → Allocates alloc
    → IsMerged lcf
    → is_some r.host ≡ true
    → (w.esi.parse_with_config_ex || w.esi.parse_with_config || not (non_empty lcf.allowed_hosts))
      ≡ true
    → Answered lcf w answer (calls_of c) (with_cache alloc (λ c. some (answer c)) lcf r input w c)
with_cache-Answered alloc answer lcf r input w (called cs) whole good m host p =
    page-Answered lcf
      (record w { cache_initialized = true; cache_last_backend = lcf.cache_backend }) answer r input
      alloc good m cs host p
with_cache-Answered alloc answer lcf r input w broken_blob whole good m host p = absurd whole

-- Where the configuration comes from an accepted merge and the number of the Redis database has at
-- most two digits, the request has a Host, every allocation of parse() but those for the cache's blob
-- is certain to succeed, libgomesi answers each call, and an allowlist can be enforced, parse() makes exactly one call to
-- parse, behind those that initialise the cache, to the entry point that the settings and the library
-- select, and its answer is the page: no guard and no measured buffer stands in the way.
pub parse-Answered :
    (alloc : Alloc) (answer : Call → Bytes) (lcf : LocConf) (r : Request) (input : Bytes)
    (w : Worker)
    → Allocates alloc
    → IsMerged lcf
    → UpTo 99 lcf.cache_redis_db
    → is_some r.host ≡ true
    → (w.esi.parse_with_config_ex || w.esi.parse_with_config || not (non_empty lcf.allowed_hosts))
      ≡ true
    → Answered lcf w answer
        (first_calls alloc lcf w)
        (parse alloc (λ c. some (answer c)) lcf r input w)
unfolding parse
parse-Answered alloc answer lcf r input w good m db host p =
    let backend = or_else lcf.cache_backend [] in
    rw (bad_settings-IsMerged lcf m) (elim (Bool-cases (needs_cache lcf w)) [
      | inl n ↦
          rw (n, good.backend)
            (with_cache-Answered alloc answer lcf r (c_string input) w
              (cache_calls alloc lcf w backend) (cache-Whole alloc lcf w backend db) good m host p)
      | inr n ↦ rw n (page-Answered lcf w answer r (c_string input) alloc good m [] host p)
    ])
