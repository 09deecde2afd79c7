-- ===== src/Lib.antt =====
-- tls-fetch-mcp is a server that fetches web pages for a tool-calling client. The package
-- internal/fetch holds its logic. A policy decides which hosts and addresses may be contacted, a
-- configuration bounds every resource, and a fetcher keeps two tables under one mutex: named cookie
-- sessions and stored response bodies, whose entries expire. A request validates its URL, opens its
-- session, connects through the policy, keeps a bounded body and may store it under a temporary handle;
-- reads, searches and extractions of a stored body are then served from memory. This library models these parts and
-- the data they share, one module per part.
--
-- What models what (paths from the repository's root):
--   Config, Config.Env     internal/fetch/config.go: with_defaults is withDefaults, config_from_env is
--                          ConfigFromEnv over an environment given as a function from names to texts
--   Policy, Policy.Address internal/fetch/policy.go, and the address classes of package net; url.Parse,
--                          net.ParseIP and the resolver's answers are arguments, so that the answers
--                          may change from call to call
--   Policy.Dial            dialContext, with the dialer as an argument; its result comes with the
--                          addresses that were tried
--   Clock                  time.Time as nanoseconds, and the product of a TTL and time.Second, which
--                          wraps around as an int64
--   Table, Table.Expiry    Go's maps as association lists; purge is the loop of both purge functions,
--                          live is what a client can see at a time
--   Fetcher                the fields that the mutex of Fetcher guards, and New
--   Session                internal/fetch/session.go, and validateSessionID of fetch.go; a jar is a
--                          handle, and the cookies that it holds an argument
--   Response               internal/fetch/response_store.go: handles, storeResponse, eviction, response
--   Response.Read          ReadResponse; Response.Search with Scan and Window: SearchResponse,
--                          asciiLowerCopy and validUTF8Window
--   Response.Headers       sanitizeResponseHeaders and sortStringsCaseInsensitive, whose inner loop of
--                          swaps is a walk down the sorted part of the slice
--   Encoding               encodeBody of fetch.go with hexadecimal and base64 text
--   Request                timeout and responseLimit of fetch.go, and the reading of a body within them
--   Request.Headers        setHeaders, defaultHeaders and profileVersion of fetch.go; the spelling of names
--                          by the HTTP library is an argument
--   Request.Exchange,      Do of fetch.go: its input and output, what it asks of the HTTP client, and its
--   Request.Send           steps from the URL to the stored response; the client, the answers of the
--                          servers, DNS and the clock are the fields of World
--   Tools                  internal/fetch/tools.go: DoGet, DoRequest and WarmupSession
--   Extract                ExtractResponse of internal/fetch/extract.go, with Extract.Queries (the checks of
--                          the input), Extract.Html, Extract.Json and Extract.Fit (the JSON text of the
--                          output and the removal of values); the libraries that parse HTML, CSS, JSON
--                          and JSONPath are the fields of Parsers
--   Server                 cmd/tls-fetch-mcp/main.go: Server.Registered has the tools with their annotations,
--                          handle their handlers, serve a life of the server, and start the part of
--                          main that builds the fetcher from the environment
--   History                sequences of calls of the methods above on one fetcher
--   Text                   the functions of packages strings, strconv, bytes, unicode/utf8 and
--                          encoding/json in use
--   Errors                 one constructor for each error text; an error that wraps a library's error
--                          does not carry it
--   Common                 lists, integers and Boolean tests over native numbers
--
-- Modules that are not listed, such as Policy.Verdict, Request.Send.Kept and Tools.Warmup, are named for
-- what their proofs are about; a module Tests runs definitions and applies theorems at concrete inputs.
--
-- A method is a function from the state to the new state and a result. Each method takes the mutex once
-- for all its work on the tables, so that concurrent calls are a sequence of such steps; the readings of
-- the clock, new jars and random bytes are arguments. An int is an int64: where the source adds or
-- multiplies unbounded values, the model wraps around at 2^63, and a slice expression out of range is
-- the error `panic`, with which a handler returns no answer and the server stops. Go leaves the order of a range loop over a map open; here it is the order of the
-- list.
--
-- Loops that are not structural run on fuel. evict_while_full has as many rounds as the table has
-- entries, and each round deletes one; scan, and a client's reading of a whole body, have one round more
-- than the body has bytes, and each round advances by at least one;
-- fit_output has one round more than there are values to remove. Go's tables of Unicode case are an
-- argument of to_lower, which is written out for ASCII.
--
-- A request is modelled without other calls between its steps on the tables; History has every order of
-- the single steps. The HTTP client is asked once: its reply names the redirects that the servers ask for,
-- and Do's redirect function is applied to them in turn.
--
-- Not modelled: the rest of cmd/tls-fetch-mcp (the version flag, signals, the protocol's transport and its
-- decoding of arguments), and the instructions that the server gives its clients.
pub mod Common
pub mod Text
pub mod Errors
pub mod Config
pub mod Policy
pub mod Clock
pub mod Table
pub mod Fetcher
pub mod Session
pub mod Encoding
pub mod Response
pub mod Extract
pub mod History
pub mod Request
pub mod Tools
pub mod Server
