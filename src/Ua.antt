-- ===== src/Ua.antt =====
-- internal/ua/ua.go: the classification of a subscription request's User-Agent. `fold` stands for
-- unicode.ToLower beyond ASCII.
pub mod FirstMatch
use remnanode_exporter.Prelude.{ℕ, String, List, [], ◌∷◌, ◌++◌, if◌then◌else◌, Text, codes, text_eq}
use remnanode_exporter.Strings.{contains, to_lower, trim_space}

pub data Kind : Type 0 where
  client browser script bot unknown : Kind

pub record Rule : Type 0 where
  pub needle : Text
  pub name : Text
  pub kind : Kind

-- Result in the source
pub record Client : Type 0 where
  pub family : Text
  pub kind : Kind

abbrev rule : String → String → Kind → Rule
rule needle name kind = record { needle = codes needle; name = codes name; kind = kind }

abbrev pub client_rules : List Rule
client_rules =
    rule "happ" "Happ" client
    ∷ rule "streisand" "Streisand" client
    ∷ rule "hiddify" "Hiddify" client
    ∷ rule "v2rayng" "v2rayNG" client
    ∷ rule "v2raytun" "v2RayTun" client
    ∷ rule "v2rayn" "v2rayN" client
    ∷ rule "nekobox" "NekoBox" client
    ∷ rule "nekoray" "NekoRay" client
    ∷ rule "shadowrocket" "Shadowrocket" client
    ∷ rule "stash" "Stash" client
    ∷ rule "loon" "Loon" client
    ∷ rule "quantumult" "Quantumult" client
    ∷ rule "surge" "Surge" client
    ∷ rule "clash-verge" "Clash Verge" client
    ∷ rule "clashx" "ClashX" client
    ∷ rule "clash" "Clash" client
    ∷ rule "mihomo" "Mihomo" client
    ∷ rule "sing-box" "sing-box" client
    ∷ rule "singbox" "sing-box" client
    ∷ rule "foxray" "FoXray" client
    ∷ rule "karing" "Karing" client
    ∷ rule "throne" "Throne" client
    ∷ rule "husi" "Husi" client
    ∷ rule "exclave" "Exclave" client
    ∷ rule "matsuri" "Matsuri" client
    ∷ rule "v2box" "V2Box" client
    ∷ rule "sfa" "sing-box for Android" client
    ∷ rule "sfi" "sing-box for iOS" client
    ∷ rule "sfm" "sing-box for macOS" client
    ∷ []

abbrev pub script_rules : List Rule
script_rules =
    rule "curl" "curl" script
    ∷ rule "wget" "wget" script
    ∷ rule "python-requests" "python-requests" script
    ∷ rule "python-urllib" "python-urllib" script
    ∷ rule "aiohttp" "aiohttp" script
    ∷ rule "httpx" "httpx" script
    ∷ rule "go-http-client" "Go-http-client" script
    ∷ rule "okhttp" "OkHttp" script
    ∷ rule "axios" "axios" script
    ∷ rule "node-fetch" "node-fetch" script
    ∷ rule "powershell" "PowerShell" script
    ∷ rule "java/" "Java" script
    ∷ rule "libwww-perl" "libwww-perl" script
    ∷ rule "postman" "Postman" script
    ∷ rule "insomnia" "Insomnia" script
    ∷ []

abbrev pub bot_rules : List Rule
bot_rules =
    rule "telegrambot" "TelegramBot" bot
    ∷ rule "crawler" "Crawler" bot
    ∷ rule "spider" "Spider" bot
    ∷ rule "bot" "Bot" bot
    ∷ []

abbrev pub browser_rules : List Rule
browser_rules =
    rule "edg/" "Edge" browser
    ∷ rule "opr/" "Opera" browser
    ∷ rule "yabrowser" "Yandex Browser" browser
    ∷ rule "firefox" "Firefox" browser
    ∷ rule "chrome" "Chrome" browser
    ∷ rule "safari" "Safari" browser
    ∷ rule "mozilla" "Browser" browser
    ∷ []

-- the first match wins
abbrev pub rules : List Rule
rules = client_rules ++ script_rules ++ bot_rules ++ browser_rules

unfoldable pub first_match : Text → List Rule → Client
first_match s [] = record { family = codes "Other"; kind = unknown }
first_match s (r ∷ rs) =
    if contains s r.needle then record { family = r.name; kind = r.kind } else first_match s rs

-- string(Kind)
unfoldable pub kind_text : Kind → Text
kind_text client = codes "client"
kind_text browser = codes "browser"
kind_text script = codes "script"
kind_text bot = codes "bot"
kind_text unknown = codes "unknown"

-- Classify
unfoldable pub classify : (ℕ → ℕ) → Text → Client
classify fold raw =
    let s = to_lower fold (trim_space raw) in
    if text_eq s []
    then record { family = codes "(empty)"; kind = unknown }
    else first_match s rules
