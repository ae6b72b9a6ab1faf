-- ===== src/Tests/Codes.antt =====
-- Short codes of ids, and a join code that is generated and used.
use autograder_server.Repository.Users.{get_course_prefix, get_course_key, get_course_member}
use autograder_server.Service.CourseMembers.Codes.{
  JoinedUnlessFailed, join_course-generate_join_code,
}
use autograder_server.Repository.Decimal.{decimal}
use autograder_server.Repository.Codec.{Codec}
use autograder_server.Repository.Messages.{Course}
use autograder_server.Encode.RoundTrip.{base30_decode-base30_encode}
use autograder_server.Repository.Courses.{
  get_join_code_key, bind_join_code, unbind_join_code, update_course, get_course, get_course_id_key,
}
use autograder_server.Repository.Pebble.{Entries}
use autograder_server.Service.CourseMembers.{join_course, generate_join_code}
use autograder_server.Encode.{digit, base30_decode, base30_encode}
use autograder_server.Base.{
  eq_of_some, subst, bytes_eq, Bool, Option, some, none, true, refl, codes, ◌^◌, ◌≡◌, List, ℕ,
  arith, ◌∷◌, [], refl,
}
use autograder_server.Service.Model.{done, Outcome, done}
use autograder_server.Tests.Codecs.{member_codec, user_codec}
use autograder_server.Tests.Batch.{batches, counter_codec}
use autograder_server.Tests.Store.{remove_key, in_memory}

base30_decode-base30_encode_example :
    base30_decode (λ i. 30 ^ i) (base30_encode (λ i. i) 12345) ≡ 12345
base30_decode-base30_encode_example =
    base30_decode-base30_encode (λ i. 30 ^ i) (λ i b. refl) (λ i. i) 12345 (omega arith)

-- A nameless course that allows joining is written as its join code.
abbrev nameless : List ℕ → Course
nameless code = record {
  name = [];
  short_name = [];
  term = [];
  description = [];
  join_code = code;
  allows_join = true;
}

abbrev nameless_raw : List ℕ → List ℕ → List ℕ → List ℕ → List ℕ → Bool → Option (List ℕ)
nameless_raw [] [] [] [] code true = some code
nameless_raw _ _ _ _ _ _ = none

nameless_back :
    (n s t d code : List ℕ) (a : Bool) (raw : List ℕ)
    → nameless_raw n s t d code a ≡ some raw
    → Path (Option Course) (some (nameless raw)) (
        some (record {
          name = n;
          short_name = s;
          term = t;
          description = d;
          join_code = code;
          allows_join = a;
        }))
nameless_back [] [] [] [] code true raw h =
    subst (λ x. Path (Option Course) (some (nameless x)) (some (nameless code))) (eq_of_some h) refl
nameless_back _ _ _ _ _ _ raw h = cc

course_codec : Codec Course
course_codec = record {
  marshal = λ c. nameless_raw c.name c.short_name c.term c.description c.join_code c.allows_join;
  unmarshal = λ raw. some (nameless raw);
  unmarshal-marshal = λ c raw e.
      nameless_back c.name c.short_name c.term c.description c.join_code c.allows_join raw e;
}

-- Course 2 with the code K, and no index.
abbrev one_course : Entries
one_course = (get_course_id_key 2, codes "K") ∷ []

abbrev new_code : List ℕ
new_code = base30_encode (λ i. i) 2

abbrev generated_code : Entries × Outcome (List ℕ)
generated_code =
    generate_join_code in_memory counter_codec user_codec member_codec course_codec batches
      one_course 2 new_code

has_generated : generated_code.1 ≡ done new_code
unfolding generate_join_code get_course bytes_eq get_course_id_key decimal update_course
    unbind_join_code bind_join_code get_join_code_key base30_encode course_codec
has_generated = refl

no_member :
    get_course_member in_memory counter_codec user_codec member_codec batches generated_code.0 3 2
    ≡ none
unfolding generate_join_code get_course bytes_eq get_course_id_key decimal update_course
    unbind_join_code bind_join_code get_join_code_key base30_encode get_course_member get_course_key
    get_course_prefix course_codec digit remove_key
no_member = refl

abbrev join_new_code : Entries × Outcome ℕ
join_new_code =
    join_course in_memory counter_codec user_codec member_codec course_codec batches
      (base30_decode (λ i. 30 ^ i)) generated_code.0 3 new_code

join_course-generate_join_code_example :
    (new_code ≡ new_code)
    × JoinedUnlessFailed in_memory counter_codec user_codec member_codec course_codec batches
        generated_code.0 2 3 join_new_code.1
join_course-generate_join_code_example =
    join_course-generate_join_code in_memory counter_codec user_codec member_codec course_codec
      batches (base30_decode (λ i. 30 ^ i)) one_course 2 3 new_code new_code (nameless (codes "K"))
      (omega arith) (unfold decimal get_course get_course_id_key bytes_eq course_codec in refl) refl
      has_generated no_member
