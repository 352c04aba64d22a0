-- ===== src/Examples/Instances.antt =====
-- Small instances of the parameters, and a few jobs, for the examples.
use duvycrawl.Shared.{ℕ, ◌≡◌, refl, true, false, Option, some, List, [], ◌∷◌, arith, ltb}
use duvycrawl.Shared.Text.{Text, codes, member, text_beq_iff}
use duvycrawl.Url.{Url, Std}
use duvycrawl.Queue.Defs.{ScoreOrder, Bloom, Job}

pub ltb-asym : (x y : ℕ) → ltb x y ≡ true → ltb y x ≡ false
ltb-asym x y h = ground arith

pub ltb_of_not_ltb : (x y z : ℕ) → ltb x y ≡ false → ltb x z ≡ true → ltb y z ≡ true
ltb_of_not_ltb x y z h k = ground arith

instance abbrev pub number_order : ScoreOrder ℕ
number_order = record { lt = ltb; asym = ltb-asym; lt_of_not_lt = ltb_of_not_ltb }

pub member_self : (b : List Text) (k : Text) → member k (k ∷ b) ≡ true
unfolding member
member_self b k = rw ((text_beq_iff k k).1 refl) refl

pub member_mono : (b : List Text) (j k : Text) → member k b ≡ true → member k (j ∷ b) ≡ true
unfolding member
member_mono b j k h = ground arith

pub member_nil : (k : Text) → member k [] ≡ false
unfolding member
member_nil k = refl

instance abbrev pub exact_filter : Bloom (List Text)
exact_filter = record {
  empty = [];
  test = λ b k. member k b;
  add = λ b k. k ∷ b;
  test-empty = member_nil;
  test-add_self = member_self;
  test-add_mono = member_mono;
}

abbrev pub to_job : Text → Text → ℕ → Text → Job ℕ
to_job url domain score fingerprint = record {
  id = 0;
  url = url;
  domain = domain;
  depth = 1;
  score = score;
  base_score = score;
  fingerprint = fingerprint;
  retries = 0;
  anchor_text = [];
  source_page_title = [];
  source_schema_type = [];
  source_language = [];
}

abbrev pub job_a : Job ℕ
job_a = to_job (10 ∷ 1 ∷ []) (10 ∷ []) 5 (1 ∷ [])

abbrev pub job_b : Job ℕ
job_b = to_job (10 ∷ 2 ∷ []) (10 ∷ []) 9 (2 ∷ [])

abbrev pub job_c : Job ℕ
job_c = to_job (11 ∷ 1 ∷ []) (11 ∷ []) 7 []

-- A page of the host `a` for any text, which is its path.
abbrev pub parse_path : Text → Option Url
parse_path s = some (record {
  scheme = codes "http";
  opaque = [];
  user = [];
  host = 10 ∷ [];
  path = s;
  raw_path = [];
  omit_host = false;
  force_query = false;
  fragment = [];
  raw_fragment = [];
  raw_query = [];
})

instance abbrev pub plain_std : Std
plain_std = record {
  to_lower = λ s. s;
  trim_space = λ s. s;
  to_lower-idem = λ s. refl;
  parse = parse_path;
  to_text = λ u. u.path;
  hostname = λ s. s;
  port = λ s. [];
  query = λ s. [];
  encode = λ m. [];
}
