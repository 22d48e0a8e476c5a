-- ===== src/RateLimit/Exclusions.antt =====
-- ratelimit/ratelimit.go: `IsIPExcluded` and `IsPathExcluded`. What Go's package `net` decides is
-- a parameter.
use text.Mathlib.Text.{starts_with}
use text.Mathlib.TextLemmas.{cons-ne-nil}
use nflow_runtime.Common.{
  ◌≡◌, refl, ◌↔◌, ◌⊎◌, Bool, true, false, not, ◌&&◌, ◌||◌, Option, none, some, List, [], ◌∷◌,
  String, str_eq, arith, if◌then◌else◌, All, Bool-cases, inl, inr,
}
use nflow_runtime.Common.Text.{split, trim_space, contains, is_empty}

-- net.ParseIP, and `Contains` of what net.ParseCIDR returns (false if it returns an error).
pub record Net (Ip : Type 0) : Type 0 where
  pub parse_ip : String → Option Ip
  pub cidr_contains : String → Ip → Bool

-- One round of the loop of `IsIPExcluded`.
unfoldable pub ip_matches : {Ip : Type 0} → Net Ip → String → Ip → String → Bool
ip_matches net ip client_ip excluded =
    not (is_empty excluded)
    && (if contains b'/' excluded then net.cidr_contains excluded client_ip else str_eq excluded ip)

unfoldable pub any_ip : {Ip : Type 0} → Net Ip → String → Ip → List String → Bool
any_ip net ip client_ip [] = false
any_ip net ip client_ip (excluded ∷ rest) =
    ip_matches net ip client_ip (trim_space excluded) || any_ip net ip client_ip rest

unfoldable pub is_ip_excluded : {Ip : Type 0} → Net Ip → String → String → Bool
is_ip_excluded net ip excluded_ips =
    if is_empty excluded_ips then false else elim (net.parse_ip ip) [
      | none ↦ false
      | some client_ip ↦ any_ip net ip client_ip (split b',' excluded_ips)
    ]

unfoldable pub path_matches : String → String → Bool
path_matches path excluded = not (is_empty excluded) && starts_with path excluded

unfoldable pub any_path : String → List String → Bool
any_path path [] = false
any_path path (excluded ∷ rest) = path_matches path (trim_space excluded) || any_path path rest

unfoldable pub is_path_excluded : String → String → Bool
is_path_excluded path excluded_paths =
    if is_empty excluded_paths then false else any_path path (split b',' excluded_paths)

path_matches-false :
    (path e : String) → (path_matches path e ≡ false) ↔ ((e ≡ "") ⊎ (starts_with path e ≡ false))
unfolding path_matches is_empty
path_matches-false path String.[] = ((λ _. inl refl), λ _. refl)
path_matches-false path (String.◌∷◌ ch s) = ground (arith, cons-ne-nil ch s)

any_path-false :
    (path : String) (entries : List String)
    → (any_path path entries ≡ false)
      ↔ All (λ e. (trim_space e ≡ "") ⊎ (starts_with path (trim_space e) ≡ false)) entries
unfolding any_path path_matches
any_path-false path [] = ((λ _. tt), λ _. refl)
any_path-false path (e ∷ es) =
    ground (arith, path_matches-false path (trim_space e), any_path-false path es)

empty_text : (s : String) → is_empty s ≡ true → s ≡ ""
unfolding is_empty
empty_text String.[] h = refl
empty_text (String.◌∷◌ ch s) h = cc

-- A path is not excluded exactly when every entry of the comma-separated list is blank or no prefix
-- of the path.
pub is_path_excluded-false :
    (path excluded_paths : String)
    → (is_path_excluded path excluded_paths ≡ false)
      ↔ All
          (λ e. (trim_space e ≡ "") ⊎ (starts_with path (trim_space e) ≡ false))
          (split b',' excluded_paths)
unfolding is_path_excluded split trim_space
is_path_excluded-false path excluded_paths = elim (Bool-cases (is_empty excluded_paths)) [
  | inl e ↦
      rw (e, is_path_excluded) (rw (empty_text excluded_paths e) ((λ _. (inl refl, tt)), λ _. refl))
  | inr e ↦ rw (e, is_path_excluded) (any_path-false path (split b',' excluded_paths))
]

any_ip-false :
    {Ip : Type 0} (net : Net Ip) (ip : String) (client_ip : Ip) (entries : List String)
    → (any_ip net ip client_ip entries ≡ false)
      ↔ All (λ e. ip_matches net ip client_ip (trim_space e) ≡ false) entries
unfolding any_ip
any_ip-false net ip client_ip [] = ((λ _. tt), λ _. refl)
any_ip-false net ip client_ip (e ∷ es) = grind (arith, any_ip-false net ip client_ip es)
