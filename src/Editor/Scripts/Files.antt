-- ===== src/Editor/Scripts/Files.antt =====
-- A script that is downloaded can be uploaded again.
use integr8s_code.Base.{◌≡◌, some, map, Text, lookup, All, Lacks}
use integr8s_code.Formatters.{to_lower}
use integr8s_code.Editor.Runtime.{LanguageInfo}
use integr8s_code.Editor.Scripts.{Offered}

-- An ending as the API gives it: in lower case, without a dot.
abbrev pub IsExtension : Text → Type 0
IsExtension ext = Lacks b'.' ext × (map to_lower ext ≡ ext)

-- The language is offered with this ending, and no other language is.
abbrev pub IsLanguageFor : Offered → (ext lang : Text) → LanguageInfo → Type 0
IsLanguageFor offered ext lang i =
    (lookup lang offered ≡ some i)
    × (i.file_ext ≡ ext)
    × All (λ e. e.1.file_ext ≡ ext → e.0 ≡ lang) offered
