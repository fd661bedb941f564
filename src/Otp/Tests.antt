-- ===== src/Otp/Tests.antt =====
-- The theorems on one-time codes at a concrete code; the hash is the identity.
use Prim.Native.String.{String}
use tamam.Otp.{
  OtpRequest, OtpSettings, Audience, verify, verify_row, wrong_code, update_active, request,
}
use tamam.Otp.Attempts.{IsSingle}
use tamam.Otp.Codes.{request-verify, verify-once}
use tamam.Otp.Guesses.{start, fail, verify-guesses}
use tamam.Prelude.{◌≡◌, refl, true, false, none, List, [], ◌∷◌, arith}
use tamam.Shared.Errors.{ok, is_ok}

abbrev settings : OtpSettings
settings = record { ttl = 300; max_attempts = 2; cooldown = 60 }

abbrev plain : String → String
plain code = code

abbrev sent : List OtpRequest
sent =
    record {
      code_hash = "4711";
      audience = Audience.customer;
      attempts = 0;
      max_attempts = 2;
      created_at = 1000;
      expires_at = 301000;
      consumed_at = none;
    }
    ∷ []

sent_once : request plain settings 1000 "4711" Audience.customer true [] ≡ ok sent
unfolding request
sent_once = refl

request-verify_example : (verify plain 2000 "4711" sent).1 ≡ ok Audience.customer
request-verify_example =
    request-verify plain settings 1000 2000 "4711" Audience.customer true [] sent (omega arith)
      (omega arith) sent_once

right_code : is_ok (verify plain 2000 "4711" sent).1 ≡ true
unfolding verify verify_row
right_code = refl

sent-IsSingle : IsSingle sent
sent-IsSingle = omega arith

verify-once_example : is_ok (verify plain 3000 "4711" (verify plain 2000 "4711" sent).0).1 ≡ false
verify-once_example = verify-once plain 2000 3000 "4711" "4711" sent sent-IsSingle right_code

first_wrong : is_ok (verify plain 2000 "0000" sent).1 ≡ false
unfolding verify verify_row wrong_code
first_wrong = refl

second_wrong : is_ok (verify plain 3000 "1111" (verify plain 2000 "0000" sent).0).1 ≡ false
unfolding verify verify_row wrong_code update_active
second_wrong = refl

verify-guesses_example :
    is_ok
      (verify plain 4000 "4711" (verify plain 3000 "1111" (verify plain 2000 "0000" sent).0).0).1
    ≡ false
verify-guesses_example =
    verify-guesses plain 4000 sent 2 (verify plain 3000 "1111" (verify plain 2000 "0000" sent).0).0
      "4711" sent-IsSingle (omega arith)
      (fail (fail start 2000 (omega arith) "0000" first_wrong) 3000 (omega arith) "1111"
        second_wrong)
