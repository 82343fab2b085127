-- ===== src/Nginx/Parse/Guards.antt =====
-- The guards of parse() are never met by what the merge leaves, and what passes them can be rendered.
use go_mesi.Base.{
  ℕ, ◌≤◌, Bool, true, false, ◌&&◌, ◌||◌, to_nat, ℤ, pos, negsuc, is_set, ◌==◌, ◌≡◌, refl, arith,
}
use go_mesi.Apache.Config.Valid.{Within, UpTo}
use go_mesi.Nginx.Config.{
  LocConf, max_max_depth, max_timeout_seconds, max_max_response_size, max_max_concurrent_requests,
  max_max_workers,
}
use go_mesi.Nginx.Config.Valid.{IsMerged}
use go_mesi.Nginx.ParseConfig.Parts.{Renders, Numbers}
use go_mesi.Nginx.Parse.{outside, bad_settings}

outside-UpTo : (hi : ℕ) (v : ℤ) → UpTo hi v → outside 0 hi v ≡ false
outside-UpTo hi (pos n) h = ground arith
outside-UpTo hi (negsuc n) h = absurd h

outside-Within : (lo hi : ℕ) (v : ℤ) → Within lo hi v → (is_set v && outside lo hi v) ≡ false
outside-Within lo hi (pos n) h = ground arith
outside-Within lo hi (negsuc n) h = let unset : (n == 0) ≡ true = ground arith in rw unset refl

-- A configuration that the merge accepted passes the five guards: no request fails by them.
pub bad_settings-IsMerged : (lcf : LocConf) → IsMerged lcf → bad_settings lcf ≡ false
unfolding bad_settings
bad_settings-IsMerged lcf m =
    rw
      (
        outside-UpTo max_max_depth lcf.max_depth m.max_depth,
        outside-Within 1 max_timeout_seconds lcf.timeout_seconds m.numbers.timeout_seconds,
        outside-Within 0 max_max_response_size lcf.max_response_size m.numbers.max_response_size,
        outside-Within 0 max_max_concurrent_requests lcf.max_concurrent_requests
            m.numbers.max_concurrent_requests,
        outside-Within 0 max_max_workers lcf.max_workers m.numbers.max_workers,
      )
      refl

inside-Renders :
    (lo hi : ℕ) (v : ℤ)
    → hi ≤ max_max_response_size
    → (is_set v && outside lo hi v) ≡ false
    → Renders v
inside-Renders lo hi (pos n) le h = ground arith
inside-Renders lo hi (negsuc n) le h = ground arith

depth_inside : (v : ℤ) → outside 0 max_max_depth v ≡ false → to_nat v ≤ max_max_response_size
depth_inside (pos n) h = ground arith
depth_inside (negsuc n) h = absurd cc

-- The numbers behind the guards.
pub good_settings :
    (lcf : LocConf)
    → bad_settings lcf ≡ false
    → Numbers lcf × (to_nat lcf.max_depth ≤ max_max_response_size)
unfolding bad_settings
good_settings lcf h =
    let (d, t, r, c, w) =
      five (outside 0 max_max_depth lcf.max_depth)
        (is_set lcf.timeout_seconds && outside 1 max_timeout_seconds lcf.timeout_seconds)
        (is_set lcf.max_response_size && outside 0 max_max_response_size lcf.max_response_size)
        (is_set lcf.max_concurrent_requests
          && outside 0 max_max_concurrent_requests lcf.max_concurrent_requests)
        (is_set lcf.max_workers && outside 0 max_max_workers lcf.max_workers) h in
    (
      record {
        timeout_seconds = inside-Renders 1 max_timeout_seconds _ (omega arith) t;
        max_response_size = inside-Renders 0 max_max_response_size _ (omega arith) r;
        max_concurrent_requests = inside-Renders 0 max_max_concurrent_requests _ (omega arith) c;
        max_workers = inside-Renders 0 max_max_workers _ (omega arith) w;
      },
      depth_inside lcf.max_depth d,
    )
  where
    five :
        (a b c d e : Bool)
        → (a || b || c || d || e) ≡ false
        → (a ≡ false) × (b ≡ false) × (c ≡ false) × (d ≡ false) × (e ≡ false)
    five a b c d e h = ground arith
