-- ===== src/Client/Transport.antt =====
-- transport.go: how a server of tools is reached. The text of an endpoint is UTF-8, so the loop over its
-- runes, which tests for ASCII only, is a loop over its bytes.
pub mod Quotes
use agent_sets.Prelude.{
  Bool, List, Option, [], false, if◌then◌else◌, none, some, true, ℕ, ◌++◌, ◌==◌, ◌||◌, ◌∷◌,
}
use agent_sets.Prelude.Int.{ℤ}
use agent_sets.Text.{Bytes, lit, has_prefix, trim_prefix}
use agent_sets.Domain.{is_empty}

pub record QuoteState : Type 0 where
  pub args : List Bytes
  pub current : Bytes
  pub in_quote : Bool
  pub quote_char : ℕ

unfoldable pub end_arg : QuoteState → List Bytes
unfolding is_empty
end_arg st = if is_empty st.current then st.args else st.args ++ (st.current ∷ [])

unfoldable pub read_char : ℕ → QuoteState → QuoteState
unfolding end_arg
read_char c st =
    if st.in_quote
    then (if c == st.quote_char
        then record st { in_quote = false }
        else record st { current = st.current ++ (c ∷ []) })
    else if c == b'"' || c == 0x27
    then record st { in_quote = true; quote_char = c }
    else if c == b' ' || c == 0x9
    then record st { args = end_arg st; current = [] }
    else record st { current = st.current ++ (c ∷ []) }

unfoldable pub read_chars : Bytes → QuoteState → QuoteState
unfolding read_char
read_chars [] st = st
read_chars (c ∷ s) st = read_chars s (read_char c st)

unfoldable pub split_with_quotes : Bytes → List Bytes
unfolding end_arg read_chars
split_with_quotes s =
    end_arg (read_chars s (record { args = []; current = []; in_quote = false; quote_char = 0 }))

-- The header that `RoundTrip` sets, if any.
unfoldable pub token_header : Bytes → Bytes → Option (Bytes × Bytes)
unfolding is_empty
token_header token auth_header =
    if is_empty token
    then none
    else if is_empty auth_header
    then some (lit "Authorization", lit "Bearer " ++ token)
    else some (auth_header, token)

-- A command with its arguments and the token that its environment gets, or an address with the token and
-- its header, if there is one, and the timeout; or the error.
pub data Transport : Type 0 where
  command_transport : Bytes → List Bytes → Option Bytes → Transport
  sse_transport : Bytes → Option (Bytes × Bytes) → ℤ → Transport
  bad_endpoint : Bytes → Transport

unfoldable pub command_of : Bytes → Bytes → List Bytes → Transport
unfolding is_empty
command_of endpoint token [] = bad_endpoint (lit "invalid stdio endpoint: " ++ endpoint)
command_of endpoint token (program ∷ arguments) =
    command_transport program arguments
      (if is_empty token then none else some (lit "MCP_TOKEN=" ++ token))

unfoldable pub new_stdio_transport : Bytes → Bytes → Transport
unfolding command_of split_with_quotes trim_prefix
new_stdio_transport endpoint token =
    command_of endpoint token (split_with_quotes (trim_prefix endpoint (lit "stdio://")))

unfoldable pub new_sse_transport : Bytes → Bytes → Bytes → ℤ → Transport
unfolding is_empty
new_sse_transport endpoint token auth_header limit =
    sse_transport endpoint (if is_empty token then none else some (token, auth_header)) limit

unfoldable pub new_mcp_transport : Bytes → Bytes → Bytes → ℤ → Transport
unfolding has_prefix new_stdio_transport new_sse_transport
new_mcp_transport endpoint token auth_header limit =
    if has_prefix endpoint (lit "stdio://")
    then new_stdio_transport endpoint token
    else if has_prefix endpoint (lit "http://") || has_prefix endpoint (lit "https://")
    then new_sse_transport endpoint token auth_header limit
    else bad_endpoint (lit "unsupported endpoint scheme: " ++ endpoint)
