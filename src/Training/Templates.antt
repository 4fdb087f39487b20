-- ===== src/Training/Templates.antt =====
-- ai_service/training/fos_ai_training/intent/data.py: the labels, the values of the slots and the
-- templates.
use food_order_system.Base.{String, List, [], ◌∷◌}
use food_order_system.Base.Dict.{Dict}

abbrev pub intent_labels : List String
intent_labels =
    "search" ∷ "recommend" ∷ "order" ∷ "status_check" ∷ "cancel" ∷ "rating" ∷ "menu_browse"
    ∷ "chitchat" ∷ "complaint" ∷ []

-- `SLOT_VALUES`
abbrev pub slot_values : Dict String (List String)
slot_values =
    (
      "food",
      "kung pao chicken" ∷ "mapo tofu" ∷ "dan dan noodles" ∷ "dim sum" ∷ "roast duck" ∷ "pasta"
          ∷ "pizza" ∷ "sushi" ∷ "ramen" ∷ "fried rice" ∷ "宫保鸡丁" ∷ "麻婆豆腐" ∷ "担担面" ∷ "点心" ∷ "烤鸭" ∷ [],
    )
    ∷ (
      "restaurant",
      "Sichuan Delight" ∷ "Cantonese Kitchen" ∷ "La Dolce Vita" ∷ "Sushi Bar" ∷ "Ramen House"
          ∷ "川味轩" ∷ "粤膳轩" ∷ "意式餐厅" ∷ [],
    )
    ∷ ("order_id", "42" ∷ "100" ∷ "1024" ∷ "7" ∷ "2048" ∷ "88" ∷ "316" ∷ "999" ∷ [])
    ∷ (
      "cuisine",
      "Sichuan" ∷ "Cantonese" ∷ "Italian" ∷ "Japanese" ∷ "Thai" ∷ "Korean" ∷ "川菜" ∷ "粤菜" ∷ "意餐"
          ∷ "日料" ∷ [],
    )
    ∷ ("price", "10" ∷ "15" ∷ "20" ∷ "25" ∷ "30" ∷ "50" ∷ [])
    ∷ ("adj", "spicy" ∷ "cheap" ∷ "fresh" ∷ "healthy" ∷ "light" ∷ "辣的" ∷ "便宜的" ∷ "清淡的" ∷ [])
    ∷ ("greeting", "hi" ∷ "hello" ∷ "hey" ∷ "你好" ∷ "嗨" ∷ [])
    ∷ ("stars", "4" ∷ "5" ∷ "3" ∷ "五星" ∷ "四星" ∷ [])
    ∷ []

-- `TEMPLATES`
abbrev pub templates : Dict String (List String)
templates =
    (
      "search",
      "find {adj} {food}" ∷ "search for {food} near me"
          ∷ "show me {cuisine} food under {price} dollars" ∷ "any {food} at {restaurant}?"
          ∷ "look up {food}" ∷ "is there {food} available" ∷ "帮我找一下{food}" ∷ "搜一下{cuisine}的菜"
          ∷ "有没有{adj}{food}" ∷ [],
    )
    ∷ (
      "recommend",
      "what should I eat tonight?" ∷ "recommend something {adj}" ∷ "suggest a {cuisine} dish for me"
          ∷ "what do you recommend for dinner?" ∷ "give me a popular {food} pick"
          ∷ "I don't know what to eat, help me choose" ∷ "surprise me with something good"
          ∷ "推荐个{cuisine}吧" ∷ "今晚吃啥好呢？" ∷ "给我来点{adj}的推荐" ∷ [],
    )
    ∷ (
      "order",
      "I want to order two {food}" ∷ "place an order for {food} from {restaurant}"
          ∷ "get me one {food} and one {food}" ∷ "order {food} for delivery"
          ∷ "I'll take the {food}" ∷ "add {food} to my cart and checkout" ∷ "来一份{food}"
          ∷ "帮我下单两份{food}" ∷ "我要点{restaurant}的{food}" ∷ [],
    )
    ∷ (
      "status_check",
      "where is my order?" ∷ "what's the status of order {order_id}?"
          ∷ "has order {order_id} been delivered yet" ∷ "track my latest order"
          ∷ "when will my food arrive" ∷ "is my delivery on the way" ∷ "我的订单{order_id}到哪儿了"
          ∷ "{order_id}号订单状态是什么" ∷ "外卖还有多久到" ∷ [],
    )
    ∷ (
      "cancel",
      "cancel order {order_id}" ∷ "please cancel my last order"
          ∷ "I want to cancel order {order_id}" ∷ "abort the order I just placed"
          ∷ "cancel the {food} I ordered" ∷ "stop the delivery of {order_id}" ∷ "取消订单{order_id}"
          ∷ "帮我把刚才下的单取消了" ∷ "不想要了，取消{order_id}" ∷ [],
    )
    ∷ (
      "rating",
      "rate order {order_id} {stars} stars"
          ∷ "I want to leave a {stars}-star review on order {order_id}"
          ∷ "give {stars} stars to {restaurant}" ∷ "review my last order as {stars} stars"
          ∷ "submit a rating for {order_id}" ∷ "the {food} was great, {stars} stars"
          ∷ "给{order_id}号订单打{stars}分" ∷ "{restaurant}评个{stars}星" ∷ "这次体验不错，打{stars}分" ∷ [],
    )
    ∷ (
      "menu_browse",
      "show me the menu of {restaurant}" ∷ "what does {restaurant} serve?"
          ∷ "list all dishes at {restaurant}" ∷ "open the {cuisine} menu" ∷ "browse {restaurant}"
          ∷ "see available dishes for {restaurant}" ∷ "看一下{restaurant}的菜单" ∷ "{restaurant}都卖啥"
          ∷ "浏览{cuisine}餐厅" ∷ [],
    )
    ∷ (
      "chitchat",
      "{greeting}, how are you?" ∷ "{greeting}" ∷ "good morning" ∷ "thanks a lot!"
          ∷ "you are helpful" ∷ "lol ok" ∷ "{greeting}，今天怎么样" ∷ "谢啦" ∷ "嗯嗯" ∷ [],
    )
    ∷ (
      "complaint",
      "my {food} arrived cold" ∷ "the order is late and I'm upset" ∷ "the delivery person was rude"
          ∷ "order {order_id} is wrong, I got the wrong dish"
          ∷ "the {food} tasted bad, want a refund" ∷ "this is unacceptable service"
          ∷ "{food}送来的时候是凉的" ∷ "{order_id}号订单送错了" ∷ "骑手态度特别差" ∷ [],
    )
    ∷ []
