-- ===== src/S3/Tests.antt =====
-- Concrete uploads and downloads.
use vaultwarden_hummingbird.Base.{
  ℕ, zero, suc, true, false, none, some, List, [], ◌∷◌, ◌≡◌, refl, subst, length, Option, Result,
  ok, err, if◌then◌else◌,
}
use vaultwarden_hummingbird.Backup.World.{served, lost}
use vaultwarden_hummingbird.Text.{Str, codes, str_eq}
use vaultwarden_hummingbird.Sync.Client.{Listed}
use vaultwarden_hummingbird.Sync.Pull.{Expect}
use vaultwarden_hummingbird.S3.Requests.{
  HttpError, status, transport, retry_attempts, Retried, retrying, retrying-Retried,
}
use vaultwarden_hummingbird.S3.Listing.{Page, list}
use vaultwarden_hummingbird.S3.Listing.Whole.{Complete, list-Complete}
use vaultwarden_hummingbird.S3.Multipart.{Bucket, as_error, in_body, put_multipart}
use vaultwarden_hummingbird.S3.Multipart.Whole.{Whole, put_multipart-Whole}
use vaultwarden_hummingbird.S3.Download.{
  Response, Reply, aborted, answered, broken, closed, start_of, get_file,
}
use vaultwarden_hummingbird.S3.Download.Refines.{Serves, IsHonest, IsRequest, get_file-IsRequest}

-- Five bytes in parts of two; the last part is lost.
abbrev bucket : Bucket
bucket = record {
  object = some (9 ∷ []);
  pending = none;
  answers = served ∷ served ∷ served ∷ served ∷ served ∷ served ∷ served ∷ lost ∷ served ∷ [];
}

abbrev five : List ℕ
five = 1 ∷ 2 ∷ 3 ∷ 4 ∷ 5 ∷ []

-- The tag of a part, here its first byte.
abbrev etag : List ℕ → Str
etag [] = []
etag (b ∷ bytes) = b ∷ []

is_error : ¬ (as_error ≡ in_body)
is_error e = cc e

put_multipart-Whole_example : Whole 2 bucket five (put_multipart etag as_error 2 five bucket)
put_multipart-Whole_example = put_multipart-Whole etag as_error 2 five bucket is_error

-- With all requests served the five bytes stand under the key.
five_uploaded :
    put_multipart etag as_error 2 five (record bucket {
      answers = served ∷ served ∷ served ∷ served ∷ served ∷ served ∷ served ∷ served ∷ served ∷ [];
    })
    ≡ (true, record { object = some five; pending = none; answers = [] })
unfolding put_multipart str_eq
five_uploaded = refl

-- The first attempt breaks off behind one byte of three, the second one gets the others.
abbrev three : List ℕ
three = 1 ∷ 2 ∷ 3 ∷ []

abbrev first_body : Response
first_body = record {
  partial_content = false;
  declared = some 3;
  chunks = (1 ∷ []) ∷ [];
  end = broken;
}

abbrev second_body : Response
second_body = record {
  partial_content = true;
  declared = some 2;
  chunks = (2 ∷ []) ∷ (3 ∷ []) ∷ [];
  end = closed;
}

abbrev first_reply : ℕ → Reply
first_reply zero = answered first_body
first_reply (suc n) = aborted

abbrev second_reply : ℕ → Reply
second_reply zero = aborted
second_reply (suc zero) = answered second_body
second_reply (suc (suc n)) = aborted

first_reply-IsHonest : IsHonest three first_reply
first_reply-IsHonest = record { serves = go }
  where
    go :
        (offset : ℕ) (r : Response)
        → first_reply offset ≡ answered r
        → Serves three (start_of offset r) r
    go zero r e =
        let same : first_body ≡ r = cc e in
        subst (λ r. Serves three (start_of 0 r) r) same
          (record { missing = 2 ∷ 3 ∷ []; body = refl; declared = refl })
    go (suc n) r e = cc e

second_reply-IsHonest : IsHonest three second_reply
second_reply-IsHonest = record { serves = go }
  where
    go :
        (offset : ℕ) (r : Response)
        → second_reply offset ≡ answered r
        → Serves three (start_of offset r) r
    go zero r e = cc e
    go (suc zero) r e =
        let same : second_body ≡ r = cc e in
        subst (λ r. Serves three (start_of 1 r) r) same
          (record { missing = []; body = refl; declared = refl })
    go (suc (suc n)) r e = cc e

abbrev expect : Expect
expect = record { size = some 3; sha256 = none; max_bytes = 10 }

abbrev digest : List ℕ → List ℕ
digest b = length b ∷ []

resumed_download :
    get_file digest false expect
      (record { target = none; part = none })
      (first_reply ∷ second_reply ∷ [])
    ≡ (true, record { target = some three; part = none })
unfolding get_file
resumed_download = refl

get_file-IsRequest_example : IsRequest digest expect three none (
    get_file digest false expect
      (record { target = none; part = none })
      (first_reply ∷ second_reply ∷ []))
get_file-IsRequest_example =
    get_file-IsRequest digest false expect three none (first_reply ∷ second_reply ∷ [])
      (first_reply-IsHonest, (second_reply-IsHonest, tt))

-- A server error, then a success.
abbrev outcomes : ℕ → Result HttpError ℕ
outcomes (suc zero) = err (status 503)
outcomes (suc (suc zero)) = ok 7
outcomes n = err transport

retrying-Retried_example :
    Retried 1 retry_attempts outcomes (retrying outcomes).0 (retrying outcomes).1
retrying-Retried_example = retrying-Retried outcomes

-- Two pages.
abbrev first_page : Page
first_page = record {
  contents = record { key = codes "b"; size = some 1; last_modified = none } ∷ [];
  next_token = some (codes "t");
}

abbrev last_page : Page
last_page = record {
  contents = record { key = codes "a"; size = some 2; last_modified = some (codes "x") } ∷ [];
  next_token = none;
}

-- The second answer is only given to the token of the first page.
abbrev first_request : Option Str → Option Page
first_request none = some first_page
first_request (some token) = none

abbrev second_request : Option Str → Option Page
second_request none = some first_page
second_request (some token) = if str_eq token (codes "t") then some last_page else none

abbrev pages : List (Option Str → Option Page)
pages = first_request ∷ second_request ∷ []

abbrev both : List Listed
both =
    record { key = codes "a"; size = 2; last_modified = codes "x" }
    ∷ record { key = codes "b"; size = 1; last_modified = [] }
    ∷ []

pages_listed : list pages ≡ ok both
unfolding list str_eq
pages_listed = refl

list-Complete_example : Complete pages both
list-Complete_example = list-Complete pages both pages_listed
