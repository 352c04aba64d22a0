-- ===== src/UrlFilter/Tables.antt =====
-- internal/urlfilter/urlfilter.go: the sets of extensions, the prefixes and the markers.
use duvycrawl.Shared.{List, [], ◌∷◌, map}
use duvycrawl.Shared.Text.{Text, codes}

unfoldable pub binary_extensions : List Text
binary_extensions = map codes (
    ".pdf" ∷ ".doc" ∷ ".docx" ∷ ".xls" ∷ ".xlsx" ∷ ".ppt" ∷ ".pptx" ∷ ".zip" ∷ ".tar" ∷ ".gz"
    ∷ ".rar" ∷ ".7z" ∷ ".bz2" ∷ ".xz" ∷ ".jpg" ∷ ".jpeg" ∷ ".png" ∷ ".gif" ∷ ".bmp" ∷ ".svg"
    ∷ ".webp" ∷ ".ico" ∷ ".tif" ∷ ".tiff" ∷ ".heic" ∷ ".heif" ∷ ".avif" ∷ ".apng" ∷ ".mp3" ∷ ".mp4"
    ∷ ".avi" ∷ ".mkv" ∷ ".mov" ∷ ".wmv" ∷ ".flv" ∷ ".wav" ∷ ".webm" ∷ ".m4a" ∷ ".ogg" ∷ ".ogv"
    ∷ ".flac" ∷ ".exe" ∷ ".msi" ∷ ".dmg" ∷ ".apk" ∷ ".deb" ∷ ".rpm" ∷ ".woff" ∷ ".woff2" ∷ ".ttf"
    ∷ ".eot" ∷ ".otf" ∷ ".wasm" ∷ ".swf" ∷ ".map" ∷ ".mjs" ∷ ".webmanifest" ∷ ".iso" ∷ ".bin"
    ∷ ".img" ∷ [])

unfoldable pub discovery_extensions : List Text
discovery_extensions = map codes (".css" ∷ ".js" ∷ ".json" ∷ ".xml" ∷ ".rss" ∷ ".atom" ∷ [])

unfoldable pub chrome_blocked_extensions : List Text
chrome_blocked_extensions = map codes (
    ".pdf" ∷ ".doc" ∷ ".docx" ∷ ".xls" ∷ ".xlsx" ∷ ".ppt" ∷ ".pptx" ∷ ".zip" ∷ ".tar" ∷ ".gz"
    ∷ ".rar" ∷ ".7z" ∷ ".bz2" ∷ ".xz" ∷ ".woff" ∷ ".woff2" ∷ ".ttf" ∷ ".eot" ∷ ".otf" ∷ ".mp3"
    ∷ ".mp4" ∷ ".avi" ∷ ".mkv" ∷ ".mov" ∷ ".wmv" ∷ ".flv" ∷ ".wav" ∷ ".webm" ∷ ".m4a" ∷ ".ogg"
    ∷ ".ogv" ∷ ".flac" ∷ ".wasm" ∷ ".swf" ∷ ".map" ∷ ".webmanifest" ∷ ".exe" ∷ ".msi" ∷ ".dmg"
    ∷ ".apk" ∷ ".deb" ∷ ".rpm" ∷ ".iso" ∷ ".bin" ∷ ".img" ∷ [])

unfoldable pub image_extensions : List Text
image_extensions = map codes (
    ".jpg" ∷ ".jpeg" ∷ ".png" ∷ ".gif" ∷ ".bmp" ∷ ".svg" ∷ ".webp" ∷ ".ico" ∷ ".tif" ∷ ".tiff"
    ∷ ".heic" ∷ ".heif" ∷ ".avif" ∷ ".apng" ∷ [])

unfoldable pub disallowed_path_prefixes : List Text
disallowed_path_prefixes = map codes (
    "/wp-admin" ∷ "/wp-login" ∷ "/admin" ∷ "/login" ∷ "/logout" ∷ "/signup" ∷ "/register" ∷ "/cart"
    ∷ "/checkout" ∷ "/account" ∷ "/api/" ∷ "/cgi-bin/" ∷ "/wiki/special:" ∷ "/wiki/talk:"
    ∷ "/wiki/user:" ∷ "/wiki/user_talk:" ∷ "/wiki/wikipedia:" ∷ "/wiki/file:" ∷ "/wiki/mediawiki:"
    ∷ "/wiki/template:" ∷ "/wiki/help:" ∷ "/wiki/category:" ∷ "/wiki/portal:" ∷ "/wiki/draft:"
    ∷ "/wiki/module:" ∷ [])

unfoldable pub challenge_path_markers : List Text
challenge_path_markers = map codes (
    "/cdn-cgi/" ∷ "/challenge-platform/" ∷ "/captcha/" ∷ "/recaptcha/" ∷ "/turnstile/"
    ∷ "/__cf_chl_" ∷ "/cf-challenge" ∷ [])
