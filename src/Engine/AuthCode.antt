-- ===== src/Engine/AuthCode.antt =====
-- engine/engine.go: `getCachedAuthCode`. The file system is given by what it answers: whether auth.js
-- exists, and its text, `none` for an error. Times are nanoseconds.
use Prim.Native.String
use nflow_runtime.Common.{
  ℕ, ◌+◌, ◌-◌, ◌<◌, ◌≡◌, refl, String, Bool, true, false, not, ◌&&◌, Option, none, some, ltb,
  if◌then◌else◌, arith,
}
use nflow_runtime.Common.Text.{is_empty}

pub record AuthCodeCache : Type 0 where
  pub code : String
  pub loaded : Bool
  pub last_check : ℕ

-- Five minutes
abbrev auth_code_lifetime : ℕ
auth_code_lifetime = 300_000_000_000

unfoldable pub is_current : AuthCodeCache → (now : ℕ) → Bool
is_current c now = c.loaded && ltb (now - c.last_check) auth_code_lifetime

-- What is kept of a file's text: an error or an empty file leaves the cache as it is.
unfoldable pub keep_code :
    AuthCodeCache → (read : Option String) → (now : ℕ) → String × AuthCodeCache
keep_code c none now = ("", c)
keep_code c (some text) now =
    if is_empty text
    then ("", c)
    else (let code = String.◌++◌ text "\nauth()" in
        (code, record { code = code; loaded = true; last_check = now }))

unfoldable pub get_cached_auth_code :
    AuthCodeCache
    → (file_exists : Bool) → (read : Option String) → (now : ℕ) → String × AuthCodeCache
unfolding is_current keep_code
get_cached_auth_code c file_exists read now =
    if is_current c now
    then (c.code, c)
    else if not file_exists
    then ("", record { code = ""; loaded = true; last_check = now })
    else keep_code c read now

-- A text that is read because no code is at hand, or one too old, is returned for five minutes,
-- whatever becomes of the file.
pub get_cached_auth_code_twice :
    (c : AuthCodeCache) (text : String) (file_exists : Bool) (read : Option String) (now later : ℕ)
    → is_current c now ≡ false
    → is_empty text ≡ false
    → later < now + 300_000_000_000
    → let (code, c') = get_cached_auth_code c true (some text) now in
      (code ≡ String.◌++◌ text "\nauth()")
      × (get_cached_auth_code c' file_exists read later ≡ (code, c'))
unfolding get_cached_auth_code is_current keep_code
get_cached_auth_code_twice c text file_exists read now later stale filled soon =
    let code = String.◌++◌ text "\nauth()" in
    let kept : AuthCodeCache = record { code = code; loaded = true; last_check = now } in
    rw (reads c text now stale filled) (refl, returns kept file_exists read later (still code))
  where
    reads :
        (c : AuthCodeCache) (text : String) (now : ℕ)
        → is_current c now ≡ false
        → is_empty text ≡ false
        → get_cached_auth_code c true (some text) now ≡ (
          String.◌++◌ text "\nauth()",
          record { code = String.◌++◌ text "\nauth()"; loaded = true; last_check = now },
        )
    reads c text now stale filled = rw (stale, filled, get_cached_auth_code, keep_code) refl

    returns :
        (c : AuthCodeCache) (file_exists : Bool) (read : Option String) (now : ℕ)
        → is_current c now ≡ true
        → get_cached_auth_code c file_exists read now ≡ (c.code, c)
    returns c file_exists read now current = rw (current, get_cached_auth_code) refl

    still :
        (code : String)
        → is_current (record { code = code; loaded = true; last_check = now }) later ≡ true
    still code = ground (arith, soon)
