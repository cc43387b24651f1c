-- ===== src/RustSdk/Words.antt =====
-- The words that crates/specforge-rust/src/lib.rs keeps away from.
use specforge_openapi_sdk_co.Prelude.{List, [], ◌∷◌, Chars, codes}

-- The names of `is_rust_sdk_builtin_type`.
unfoldable pub builtin_types : List Chars
builtin_types =
    codes "Error"
    ∷ codes "Client"
    ∷ codes "ClientBuilder"
    ∷ codes "ServiceContainer"
    ∷ codes "Semaphore"
    ∷ codes "RetryOptions"
    ∷ codes "ResponseCache"
    ∷ codes "RequestDeduper"
    ∷ codes "ResponseTransformer"
    ∷ codes "RequestInterceptor"
    ∷ codes "ResponseInterceptor"
    ∷ codes "RateLimiter"
    ∷ codes "TokenBucket"
    ∷ codes "SlidingWindow"
    ∷ codes "MetricsCollector"
    ∷ codes "Metrics"
    ∷ codes "TelemetryHooks"
    ∷ codes "Middleware"
    ∷ codes "MiddlewareRequest"
    ∷ codes "MiddlewareResponse"
    ∷ codes "StreamMiddleware"
    ∷ codes "ServerSentEvent"
    ∷ codes "SseStream"
    ∷ codes "Auth"
    ∷ codes "CursorPage"
    ∷ codes "OffsetPage"
    ∷ codes "ConsoleLogger"
    ∷ codes "NoopLogger"
    ∷ []

-- The words of `is_rust_reserved`.
unfoldable pub reserved : List Chars
reserved =
    codes "as"
    ∷ codes "break"
    ∷ codes "const"
    ∷ codes "continue"
    ∷ codes "crate"
    ∷ codes "else"
    ∷ codes "enum"
    ∷ codes "extern"
    ∷ codes "false"
    ∷ codes "fn"
    ∷ codes "for"
    ∷ codes "if"
    ∷ codes "impl"
    ∷ codes "in"
    ∷ codes "let"
    ∷ codes "loop"
    ∷ codes "match"
    ∷ codes "mod"
    ∷ codes "move"
    ∷ codes "mut"
    ∷ codes "pub"
    ∷ codes "ref"
    ∷ codes "return"
    ∷ codes "self"
    ∷ codes "Self"
    ∷ codes "static"
    ∷ codes "struct"
    ∷ codes "super"
    ∷ codes "trait"
    ∷ codes "true"
    ∷ codes "type"
    ∷ codes "unsafe"
    ∷ codes "use"
    ∷ codes "where"
    ∷ codes "while"
    ∷ codes "async"
    ∷ codes "await"
    ∷ codes "dyn"
    ∷ codes "abstract"
    ∷ codes "become"
    ∷ codes "box"
    ∷ codes "do"
    ∷ codes "final"
    ∷ codes "macro"
    ∷ codes "override"
    ∷ codes "priv"
    ∷ codes "typeof"
    ∷ codes "unsized"
    ∷ codes "virtual"
    ∷ codes "yield"
    ∷ codes "try"
    ∷ codes "gen"
    ∷ codes "client"
    ∷ codes "path"
    ∷ codes "query"
    ∷ codes "body"
    ∷ codes "result"
    ∷ codes "ok"
    ∷ codes "err"
    ∷ codes "some"
    ∷ codes "none"
    ∷ codes "vec"
    ∷ codes "string"
    ∷ codes "option"
    ∷ []
