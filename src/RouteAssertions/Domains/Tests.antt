-- ===== src/RouteAssertions/Domains/Tests.antt =====
-- Host names by example.
use blackcat_darkmesh_gatewa.RouteAssertions.Outcome.{ok, err, refused}
use blackcat_darkmesh_gatewa.RouteAssertions.Domains.{
  normalize_domain_like, normalize_verify_domain, invalid, host, checked_host,
}
use blackcat_darkmesh_gatewa.RouteAssertions.Samples.{shop, sample_platform}
use blackcat_darkmesh_gatewa.Base.{◌≡◌, refl, none, some}

cleaned : normalize_domain_like sample_platform " SHOP.example.org.. " "domain" ≡ ok shop
unfolding normalize_domain_like
cleaned = refl

blank :
    normalize_domain_like sample_platform "  " "domain" ≡ err (refused none 400 "missing_domain")
unfolding normalize_domain_like
blank = refl

with_scheme :
    normalize_domain_like sample_platform "http://shop.example.org" "hbHost"
    ≡ err (refused none 400 "invalid_hbHost")
unfolding normalize_domain_like
with_scheme = refl

blank_verified :
    normalize_verify_domain sample_platform "  " "domain"
    ≡ err (refused (some "worker_route_assert_verify_fail_total") 400 "invalid_domain")
unfolding normalize_verify_domain
blank_verified = refl

empty_label : checked_host "a..b" ≡ invalid
unfolding checked_host
empty_label = refl

dashes : checked_host "a-b.c-1" ≡ host "a-b.c-1"
unfolding checked_host
dashes = refl

last_dash : checked_host "a-.c" ≡ invalid
unfolding checked_host
last_dash = refl
