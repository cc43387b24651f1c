-- ===== src/Names/Words.antt =====
-- The words that crates/specforge-ts/src/name.rs keeps away from.
use specforge_openapi_sdk_co.Prelude.{List, [], ◌∷◌, Chars, codes}

-- The names of `is_ts_sdk_builtin_type`.
unfoldable pub builtin_types : List Chars
builtin_types =
    codes "ApiClient"
    ∷ codes "ApiClientOptions"
    ∷ codes "ApiError"
    ∷ codes "AuthProvider"
    ∷ codes "AnonymousAuthProvider"
    ∷ codes "BearerAuthProvider"
    ∷ codes "ApiKeyAuthProvider"
    ∷ codes "CacheEntry"
    ∷ codes "ConfigurationError"
    ∷ codes "ConsoleLogger"
    ∷ codes "CursorPage"
    ∷ codes "EndpointSchema"
    ∷ codes "HttpError"
    ∷ codes "Logger"
    ∷ codes "Metrics"
    ∷ codes "MetricsCollector"
    ∷ codes "Middleware"
    ∷ codes "MiddlewareRequest"
    ∷ codes "MiddlewareResponse"
    ∷ codes "NetworkError"
    ∷ codes "OffsetPage"
    ∷ codes "RateLimiter"
    ∷ codes "RequestInterceptor"
    ∷ codes "RequestDeduper"
    ∷ codes "RequestOptions"
    ∷ codes "ResponseCache"
    ∷ codes "ResponseInterceptor"
    ∷ codes "ResponseTransformer"
    ∷ codes "RetryOptions"
    ∷ codes "RouteSchemaMap"
    ∷ codes "SchemaType"
    ∷ codes "Semaphore"
    ∷ codes "ServerSentEvent"
    ∷ codes "ServiceContainer"
    ∷ codes "SlidingWindow"
    ∷ codes "TelemetryHooks"
    ∷ codes "TimeoutError"
    ∷ codes "TokenBucket"
    ∷ codes "ValidationError"
    ∷ codes "QueryRecord"
    ∷ []

-- The names of `is_reserved`.
unfoldable pub reserved : List Chars
reserved =
    codes "break"
    ∷ codes "case"
    ∷ codes "catch"
    ∷ codes "class"
    ∷ codes "const"
    ∷ codes "continue"
    ∷ codes "debugger"
    ∷ codes "default"
    ∷ codes "delete"
    ∷ codes "do"
    ∷ codes "else"
    ∷ codes "enum"
    ∷ codes "export"
    ∷ codes "extends"
    ∷ codes "false"
    ∷ codes "finally"
    ∷ codes "for"
    ∷ codes "function"
    ∷ codes "if"
    ∷ codes "import"
    ∷ codes "in"
    ∷ codes "instanceof"
    ∷ codes "new"
    ∷ codes "null"
    ∷ codes "return"
    ∷ codes "super"
    ∷ codes "switch"
    ∷ codes "this"
    ∷ codes "throw"
    ∷ codes "true"
    ∷ codes "try"
    ∷ codes "typeof"
    ∷ codes "var"
    ∷ codes "void"
    ∷ codes "while"
    ∷ codes "with"
    ∷ codes "let"
    ∷ codes "static"
    ∷ codes "yield"
    ∷ codes "await"
    ∷ codes "async"
    ∷ codes "of"
    ∷ codes "as"
    ∷ codes "from"
    ∷ codes "type"
    ∷ codes "interface"
    ∷ codes "implements"
    ∷ codes "package"
    ∷ codes "private"
    ∷ codes "protected"
    ∷ codes "public"
    ∷ []
