-- ===== src/Examples/Users.antt =====
-- The users of a server whose hashes are the lengths of the passwords, in a file that is its records.
use quic_kfs.Prelude.{
  All-append, ℕ, ◌≡◌, refl, subst, true, false, some, List, [], ◌∷◌, ◌++◌, arith, length,
}
use quic_kfs.Protocol.Messages.{Bytes}
use quic_kfs.Server.Login.{valid_username}
use quic_kfs.Accounts.{ok}
use quic_kfs.Accounts.Users.{
  UserRecord, UserDatabase, Platform, StateDirectory, Chance, same_name, parse_password_hash,
  read_user_database, read_json, valid_records, verify_user_authorization,
}
use quic_kfs.Accounts.Text.{char_from, from_utf8_lossy, decode_lossy, next_byte, first_byte}
use quic_kfs.Accounts.Trim.{trim, strip, space_first, space_last}
use quic_kfs.Accounts.Codes.{format_code, normalize_pairing_code, ungroup, chunks, join_chunks}
use quic_kfs.Accounts.CodeRoundTrip.{is_base64, IsBase64, format_code_round_trip}
use quic_kfs.Accounts.Refinement.{Command, IsSound, accounts}
use quic_kfs.Accounts.Histories.{
  execute_all, replay, grant, execute_all-replay, verify_user_authorization-grant,
}

abbrev toy_platform : Platform UserDatabase
toy_platform = record {
  to_json = λ users. users;
  from_json = λ users. some users;
  size = λ users. length users;
  hash = λ password salt. some (length password ∷ []);
  supported = λ hash. true;
  verify = λ password hash. same_name (length password ∷ []) hash;
}

some_injective : {x y : Bytes} → some x ≡ some y → x ≡ y
some_injective h = cc

toy-IsSound : IsSound toy_platform
unfolding parse_password_hash
toy-IsSound = record {
  json = λ users. refl;
  hashes = λ password salt hash e.
      subst (λ h. parse_password_hash toy_platform h ≡ true) (some_injective e) refl;
}

-- `ann`, with a password of 12 bytes, who may write.
abbrev ann : UserRecord
ann = record {
  username = 97 ∷ 110 ∷ 110 ∷ [];
  password_hash = 12 ∷ [];
  enabled = true;
  writable = true;
}

abbrev toy_directory : StateDirectory UserDatabase
toy_directory = record { secure = true; private = true; locked = false; users = some (ann ∷ []) }

abbrev twelve : Bytes
twelve = 1 ∷ 2 ∷ 3 ∷ 4 ∷ 5 ∷ 6 ∷ 7 ∷ 8 ∷ 9 ∷ 10 ∷ 11 ∷ 12 ∷ []

abbrev good_luck : Chance
good_luck = record { salt = some []; written = true }

-- `bob` is added, may write, and `ann` is removed twice.
abbrev commands : List (Chance × Command)
commands =
    (good_luck, Command.add (98 ∷ []) twelve)
    ∷ (good_luck, Command.set_writable (98 ∷ []) true)
    ∷ (good_luck, Command.remove (97 ∷ 110 ∷ 110 ∷ []))
    ∷ (good_luck, Command.remove (97 ∷ 110 ∷ 110 ∷ []))
    ∷ []

execute_all-replay_example :
    accounts toy_platform (execute_all toy_platform commands toy_directory) (98 ∷ [])
    ≡ replay toy_platform commands toy_directory (accounts toy_platform toy_directory) (98 ∷ [])
execute_all-replay_example =
    execute_all-replay toy_platform toy-IsSound commands toy_directory (98 ∷ [])

verify_user_authorization-grant_example :
    verify_user_authorization toy_platform (97 ∷ 110 ∷ 110 ∷ []) twelve toy_directory
    ≡ ok (some (record { writable = true }))
unfolding read_user_database read_json valid_records parse_password_hash valid_username grant
    accounts
verify_user_authorization-grant_example =
    verify_user_authorization-grant toy_platform (97 ∷ 110 ∷ 110 ∷ []) twelve toy_directory
      (ann ∷ []) refl refl refl (omega arith)

abbrev eight : Bytes
eight = 97 ∷ 71 ∷ 86 ∷ 115 ∷ 98 ∷ 71 ∷ 56 ∷ 45 ∷ []

eight-IsBase64 : IsBase64 eight
eight-IsBase64 = (refl, (refl, (refl, (refl, (refl, (refl, (refl, (refl, tt))))))))

-- 20 bytes take 27 characters.
abbrev a_secret : Bytes
a_secret = eight ++ (eight ++ (eight ++ (65 ∷ 66 ∷ 95 ∷ [])))

a_secret-IsBase64 : IsBase64 a_secret
a_secret-IsBase64 = All-append In64 eight (eight ++ (eight ++ (65 ∷ 66 ∷ 95 ∷ []))) eight-IsBase64 (
    All-append In64 eight (eight ++ (65 ∷ 66 ∷ 95 ∷ [])) eight-IsBase64
      (All-append In64 eight (65 ∷ 66 ∷ 95 ∷ []) eight-IsBase64 (refl, (refl, (refl, tt)))))
  where
    In64 : ℕ → Type 0
    In64 b = is_base64 b ≡ true

format_code_round_trip_example :
    (normalize_pairing_code (format_code a_secret) ≡ ok a_secret)
    × (normalize_pairing_code a_secret ≡ ok a_secret)
format_code_round_trip_example = format_code_round_trip a_secret refl a_secret-IsBase64

-- The tests of text that no secret is: a character that two groups share is lost.
split_character :
    format_code (97 ∷ 98 ∷ 99 ∷ 195 ∷ 169 ∷ [])
    ≡ 97 ∷ 98 ∷ 99 ∷ 239 ∷ 191 ∷ 189 ∷ 45 ∷ 239 ∷ 191 ∷ 189 ∷ []
unfolding format_code chunks join_chunks from_utf8_lossy decode_lossy next_byte first_byte
split_character = refl

whole_character :
    from_utf8_lossy (226 ∷ 130 ∷ 172 ∷ 240 ∷ 159 ∷ []) ≡ 226 ∷ 130 ∷ 172 ∷ 239 ∷ 191 ∷ 189 ∷ []
unfolding from_utf8_lossy decode_lossy next_byte first_byte
whole_character = refl

wide_character : ungroup 0 (195 ∷ []) ≡ ok (195 ∷ 131 ∷ [])
unfolding ungroup char_from
wide_character = refl

trimmed : trim (32 ∷ 226 ∷ 128 ∷ 128 ∷ 97 ∷ 32 ∷ 98 ∷ 194 ∷ 160 ∷ 10 ∷ []) ≡ 97 ∷ 32 ∷ 98 ∷ []
unfolding trim strip space_first space_last
trimmed = refl
