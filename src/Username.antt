-- ===== src/Username.antt =====
-- Usernames: utils/username-source.js and utils/user/{username, username-blacklist}.js.
pub mod Shape
mod Tests
use Prim.Native.Char.{code}
use Prim.Native.String
use passmower.Prelude.{
  ℕ, zero, suc, String, Option, none, some, Bool, true, false, not, List, [], ◌∷◌, ◌==◌, ◌&&◌, ◌||◌,
  ◌≡◌, ◌≤◌, refl, contains, truthy, same_text, leb, nat_eq, get_or, if◌then◌else◌, is_some, arith,
}
use passmower.Settings.{Settings}

pub data Source : Type 0 where
  generated prompt upstream : Source

abbrev parse_source : String → Option Source
parse_source t =
    if t == "generated"
    then some Source.generated
    else if t == "prompt"
    then some Source.prompt
    else if t == "upstream"
    then some Source.upstream
    else none

-- none is the thrown error. The memo of the first answer changes nothing, since the environment
-- does not change.
unfoldable pub get_username_source : Settings → Option Source
get_username_source s =
    let use_github = same_text s.use_github_username (some "true") in
    let require_custom = same_text s.require_custom_username (some "true") in
    if truthy s.username_source
    then parse_source (get_or s.username_source "")
    else if use_github || require_custom
    then (if require_custom || not use_github then some Source.prompt else some Source.upstream)
    else some Source.generated

-- The validator package: isLength with min 3 and max 15, isAlphanumeric, isLowercase.
pub record Validator : Type 0 where
  pub is_length : ℕ → ℕ → String → Bool
  pub is_alphanumeric : String → Bool
  pub is_lowercase : String → Bool

is_lower : ℕ → Bool
is_lower c = leb b'a' c && leb c b'z'

is_digit : ℕ → Bool
is_digit c = leb b'0' c && leb c b'9'

pub is_kept : ℕ → Bool
is_kept c = is_lower c || is_digit c

before_at : String → String
before_at String.[] = ""
before_at (String.◌∷◌ c s) =
    let rest = before_at s in if nat_eq (code c) b'@' then "" else String.◌∷◌ c rest

keep_alphanumeric : String → String
keep_alphanumeric String.[] = ""
keep_alphanumeric (String.◌∷◌ c s) =
    let rest = keep_alphanumeric s in if is_kept (code c) then String.◌∷◌ c rest else rest

drop_digits : String → String
drop_digits String.[] = ""
drop_digits (String.◌∷◌ c s) =
    let rest = drop_digits s in if is_digit (code c) then rest else String.◌∷◌ c s

take_chars : ℕ → String → String
take_chars zero s = ""
take_chars (suc n) String.[] = ""
take_chars (suc n) (String.◌∷◌ c s) = String.◌∷◌ c (take_chars n s)

-- `sanitized || null`
abbrev non_empty : String → Option String
non_empty s = if s == "" then none else some s

pub sanitize_username : (String → String) → Option String → Option String
sanitize_username to_lower_case raw =
    if truthy raw
    then non_empty (
        take_chars 15 (drop_digits (keep_alphanumeric (before_at (to_lower_case (get_or raw ""))))))
    else none

blacklist : List String
blacklist =
    "admin" ∷ "adm" ∷ "_apt" ∷ "audio" ∷ "avahi" ∷ "avahi-autoipd" ∷ "backup" ∷ "bin" ∷ "bluetooth"
    ∷ "cdrom" ∷ "colord" ∷ "crontab" ∷ "cups-pk-helper" ∷ "daemon" ∷ "debian-tor" ∷ "dialout"
    ∷ "dip" ∷ "disk" ∷ "dnsmasq" ∷ "docker" ∷ "fax" ∷ "_flatpak" ∷ "floppy" ∷ "freerad" ∷ "games"
    ∷ "gdm" ∷ "geoclue" ∷ "gnats" ∷ "gnome-initial-setup" ∷ "hplip" ∷ "input" ∷ "iocard" ∷ "irc"
    ∷ "kernoops" ∷ "kmem" ∷ "kvm" ∷ "lauri" ∷ "lightdm" ∷ "libvirt" ∷ "libvirt-dnsmasq"
    ∷ "libvirt-qemu" ∷ "list" ∷ "lp" ∷ "lpadmin" ∷ "lxc-dnsmasq" ∷ "mail" ∷ "man" ∷ "messagebus"
    ∷ "minidlna" ∷ "mlocate" ∷ "mopidy" ∷ "mpd" ∷ "netdev" ∷ "news" ∷ "nm-openvpn" ∷ "nobody"
    ∷ "nogroup" ∷ "operator" ∷ "plugdev" ∷ "proxy" ∷ "pulse" ∷ "pulse-access" ∷ "rdma" ∷ "redis"
    ∷ "render" ∷ "root" ∷ "_rpc" ∷ "rtkit" ∷ "sambashare" ∷ "saned" ∷ "sasl" ∷ "scanner" ∷ "shadow"
    ∷ "speech-dispatcher" ∷ "src" ∷ "ssh" ∷ "sshd" ∷ "ssl-cert" ∷ "staff" ∷ "statd" ∷ "sudo"
    ∷ "sunxi-fel" ∷ "sync" ∷ "sys" ∷ "syslog" ∷ "systemd-coredump" ∷ "systemd-journal"
    ∷ "systemd-network" ∷ "systemd-resolve" ∷ "systemd-timesync" ∷ "tape" ∷ "tcpdump" ∷ "tss"
    ∷ "tty" ∷ "usbmux" ∷ "users" ∷ "usrp" ∷ "utmp" ∷ "uucp" ∷ "uuidd" ∷ "vboxusers" ∷ "video"
    ∷ "voice" ∷ "wheel" ∷ "whoopsie" ∷ "www-data" ∷ "administrator" ∷ "guest" ∷ "null" ∷ []

-- The default export of username-blacklist.js: whether the name may be used.
pub is_not_blacklisted : String → Bool
is_not_blacklisted value = not (contains value blacklist)

pub starts_with_letter : String → Bool
starts_with_letter String.[] = false
starts_with_letter (String.◌∷◌ c s) = is_lower (code c)

-- `USERNAME_RULES.every(…)`, in their order.
unfoldable pub rules_hold : Validator → String → Bool
rules_hold v u =
    v.is_length 3 15 u
    && v.is_alphanumeric u
    && is_not_blacklisted u
    && starts_with_letter u
    && v.is_lowercase u

unfoldable pub is_username_valid : Validator → Option String → Bool
is_username_valid v value = if truthy value then rules_hold v (get_or value "") else false
