-- ===== src/Ctx/Tests.antt =====
-- Concrete urls and texts of src/ctx.rs, and its theorems at concrete inputs.
use afeye.Prelude.{byte_at, done, ◌≡◌, refl, some, [], ◌∷◌, Bytes, codes, arith}
use afeye.Ctx.{
  floor_from, char_floor, host_of, hostport_of, through_path, endpoint_of, split_at, until,
  split_last, without_port, bracketed,
}
use afeye.Ctx.Vendors.{is_under, vendor_in, vendor_of_url}
use afeye.Ctx.Urls.{UrlFits, put_url, host_of-put_url}

-- a two-byte character
abbrev text : Bytes
text = 97 ∷ 208 ∷ 186 ∷ 98 ∷ []

host_of_full : host_of (codes "https://u:p@a.b.c:8443/x?y#z") ≡ codes "a.b.c"
unfolding host_of hostport_of split_at until split_last without_port bracketed
host_of_full = refl

host_of_six : host_of (codes "http://[2001:db8::1]:80/") ≡ codes "[2001:db8::1]"
unfolding host_of hostport_of split_at until split_last without_port bracketed
host_of_six = refl

endpoint_of_full : endpoint_of (codes "https://u@a.b:1/x/y?q=/#z") ≡ codes "https://u@a.b:1/x/y"
unfolding endpoint_of through_path host_of hostport_of split_at until split_last without_port
    bracketed
endpoint_of_full = refl

-- ws://u@a.b:8/x?y
abbrev scheme : Bytes
scheme = 119 ∷ 115 ∷ []

abbrev user : Bytes
user = 117 ∷ []

abbrev host : Bytes
host = 97 ∷ 46 ∷ 98 ∷ []

abbrev port : Bytes
port = 56 ∷ []

abbrev rest : Bytes
rest = 47 ∷ 120 ∷ 63 ∷ 121 ∷ []

url-UrlFits : UrlFits scheme (some user) host (some port) rest
url-UrlFits = (
  (omega arith, (omega arith, tt)),
  (refl, tt),
  (
    (refl, (refl, (refl, tt))),
    (omega arith, (omega arith, (omega arith, tt))),
    (omega arith, (omega arith, (omega arith, tt))),
    (omega arith, (omega arith, (omega arith, tt))),
  ),
  ((refl, tt), (omega arith, tt), (omega arith, tt), (omega arith, tt)),
  refl,
)

host_of-put_url_example : host_of (put_url scheme (some user) host (some port) rest) ≡ host
host_of-put_url_example = host_of-put_url scheme (some user) host (some port) rest url-UrlFits

vendor_of_mail :
    vendor_of_url (codes "https://ct.captcha-delivery.com.datadome.co/x") ≡ some (codes "datadome")
unfolding vendor_of_url vendor_in is_under host_of hostport_of split_at until split_last
    without_port
vendor_of_mail = refl

-- 2 is inside of the character
char_floor_inside : char_floor text 2 ≡ done 1
unfolding char_floor floor_from byte_at
char_floor_inside = refl
