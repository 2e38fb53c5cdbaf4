-- ===== src/Relay/Auth/Html.antt =====
-- The admin pages (crates/relay/src/auth/html.rs).
pub mod Laws
mod Tests
use slack_claude_remote.Prelude.{ℕ, List, [], ◌∷◌, ◌++◌, ◌==◌, if◌then◌else◌}
use slack_claude_remote.Prelude.Text.{Text, codes}
use slack_claude_remote.Relay.Store.{TokenRecord}

abbrev pub head : Text
head = codes "<!doctype html><html><head><meta charset=\"utf-8\"><title>sccr</title></head><body>"

abbrev pub tail : Text
tail = codes "</body></html>"

unfoldable pub escape_char : ℕ → Text
escape_char c =
    if c == b'&'
    then codes "&amp;"
    else if c == b'<'
    then codes "&lt;"
    else if c == b'>'
    then codes "&gt;"
    else if c == b'"'
    then codes "&quot;"
    else if c == b'\''
    then codes "&#39;"
    else c ∷ []

unfoldable pub escape : Text → Text
unfolding escape_char
escape [] = []
escape (c ∷ s) = escape_char c ++ escape s

session_items : List Text → Text
session_items [] = []
session_items (name ∷ names) = codes "<li>" ++ escape name ++ codes "</li>" ++ session_items names

unfoldable pub sessions_html : List Text → Text
unfolding session_items
sessions_html [] = codes "<p>No sessions connected.</p>"
sessions_html (name ∷ names) = codes "<ul>" ++ session_items (name ∷ names) ++ codes "</ul>"

token_rows : List TokenRecord → Text
token_rows [] = []
token_rows (t ∷ ts) =
    codes "<tr><td>"
    ++ escape t.label
    ++ codes "</td><td>"
    ++ escape t.created
    ++ codes "</td></tr>"
    ++ token_rows ts

unfoldable pub tokens_html : List TokenRecord → Text
unfolding token_rows
tokens_html [] = codes "<p>No tokens issued.</p>"
tokens_html (t ∷ ts) =
    codes "<table><tr><th>Label</th><th>Created</th></tr>"
    ++ token_rows (t ∷ ts)
    ++ codes "</table>"

unfoldable pub admin_page : Text → List Text → List TokenRecord → Text
unfolding sessions_html tokens_html escape
admin_page user sessions tokens =
    head
    ++ codes "<p>Signed in as "
    ++ escape user
    ++ codes "</p><h2>Connected sessions</h2>"
    ++ sessions_html sessions
    ++ codes "<h2>Issue agent token</h2><form method=\"post\" action=\"/tokens\">"
    ++ codes "<input name=\"label\" maxlength=\"64\" required> "
    ++ codes "<button type=\"submit\">Issue</button></form><h2>Issued tokens</h2>"
    ++ tokens_html tokens
    ++ tail

unfoldable pub token_page : Text → Text → Text
unfolding escape
token_page label token =
    head
    ++ codes "<p>Token for "
    ++ escape label
    ++ codes " (shown only once):</p><pre>"
    ++ escape token
    ++ codes "</pre><p><a href=\"/\">Back</a></p>"
    ++ tail
